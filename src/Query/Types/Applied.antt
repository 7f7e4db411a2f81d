-- ===== src/Query/Types/Applied.antt =====
-- A type constructor applied to arguments is one argument itself, and its parts are found again.
use clickhouse_mcp.Prelude.{
  ℕ, suc, ◌+◌, Bool, true, false, ◌&&◌, not, List, [], ◌∷◌, ◌++◌, append_assoc, ◌≡◌, Option, none,
  some, refl, ap, sym, ◌∙◌, arith, if◌then◌else◌, All, length-append,
}
use clickhouse_mcp.Query.Types.Args.{IsArg, balances, level_after, split_top_level-join}
use clickhouse_mcp.Query.Types.Wrapped.{
  IsHead, wrap, trim_space-wrap, type_name-wrap, length-wrap-lt, is_date_only_of_elem,
}
use clickhouse_mcp.Query.Types.{
  type_name, split_top_level, has_own_args, second_arg, last_or, elem_type, is_date_only,
  field_type, field_type_of,
}
use clickhouse_mcp.Text.{
  Text, codes, Lacks, equal, join, trim_space, is_space, contains, starts_with, after, before,
}

-- A constructor name: one word with no paren and no comma.
pub record IsName (name : Text) : Type 0 where
  pub is_head : IsHead name
  pub no_close : Lacks b')' name
  pub no_comma : Lacks b',' name
  pub no_space : Lacks b' ' name

pub balances-word :
    (k : ℕ) (w s : Text)
    → Lacks b'(' w
    → Lacks b')' w
    → Lacks b',' w
    → balances k (w ++ s) ≡ balances k s
balances-word k [] s o c m = refl
balances-word k (d ∷ w) s (o, os) (c, cs) (m, ms) = ground (arith, balances-word k w s os cs ms)

balances_inside :
    (k j : ℕ) (a s : Text)
    → balances j a ≡ true
    → balances (suc k + j) (a ++ s) ≡ balances (suc k) s
balances_inside k j [] s h = let e : j ≡ 0 = ground arith in ap (λ n. balances n s) (omega arith)
balances_inside k j (c ∷ a) s h =
    let level : level_after (suc k + j) c ≡ suc k + level_after j c = ground arith in
    rw level (ground (arith, balances_inside k (level_after j c) a s))

balances_arg : (a s : Text) → IsArg a → balances 1 (a ++ s) ≡ balances 1 s
balances_arg a s h =
    ap (λ n. balances n (a ++ s)) (omega arith) ∙ balances_inside 0 0 a s h.balanced

-- Arguments with commas between them, up to the paren that closes them.
balances-join :
    (t : Text) (ts : List Text)
    → IsArg t
    → All IsArg ts
    → balances 1 (join (codes ", ") (t ∷ ts) ++ codes ")") ≡ true
unfolding join
balances-join t [] h _ = balances_arg t (codes ")") h
balances-join t (u ∷ ts) h (hu, hs) =
    ap (balances 1) (append_assoc t (codes ", " ++ join (codes ", ") (u ∷ ts)) (codes ")"))
    ∙ balances_arg t ((codes ", " ++ join (codes ", ") (u ∷ ts)) ++ codes ")") h
    ∙ balances-join u ts hu hs

balances_args :
    (ts : List Text) → All IsArg ts → balances 1 (join (codes ", ") ts ++ codes ")") ≡ true
balances_args [] _ = unfold join in refl
balances_args (t ∷ ts) (h, hs) = balances-join t ts h hs

-- A constructor applied to arguments is an argument.
pub wrap-IsArg :
    {name : Text} (ts : List Text)
    → IsName name
    → All IsArg ts
    → IsArg (wrap name (join (codes ", ") ts))
wrap-IsArg {name} ts n h = record {
  balanced =
      balances-word 0 name (b'(' ∷ (join (codes ", ") ts ++ codes ")")) n.is_head.no_paren
        n.no_close n.no_comma
      ∙ balances_args ts h;
  trimmed = trim_space-wrap n.is_head (join (codes ", ") ts);
  not_nil = (λ e.
      let bad =
        sym (ap (λ t. t ++ (b'(' ∷ (join (codes ", ") ts ++ codes ")"))) n.is_head.splits) ∙ e in
      cc);
}

contains-before :
    (w r : Text) → Lacks b' ' w → contains (codes "(") (before (codes " ") (w ++ b'(' ∷ r)) ≡ true
unfolding contains before starts_with
contains-before [] r h = refl
contains-before (c ∷ w) r (h, hs) = ground (arith, contains-before w r hs)

module _ {name : Text} (n : IsName name) (ts : List Text) (h : All IsArg ts) where
  abbrev printed : Text
  printed = wrap name (join (codes ", ") ts)

  pub type_name-args : type_name printed ≡ record { name = name; args = join (codes ", ") ts }
  type_name-args = type_name-wrap n.is_head (join (codes ", ") ts)

  pub split_args_of : split_top_level (type_name printed).args ≡ ts
  split_args_of = rw type_name-args (split_top_level-join ts h)

  -- No blank stands in front of the first paren, so no field's name is read.
  pub field_type-wrap : field_type printed ≡ printed
  unfolding field_type field_type_of
  field_type-wrap = by_blank (after (codes " ") printed)
    where
      paren : contains (codes "(") (before (codes " ") printed) ≡ true
      paren = contains-before name (join (codes ", ") ts ++ codes ")") n.no_space

      by_blank : (o : Option Text) → field_type_of printed o ≡ printed
      by_blank none = refl
      by_blank (some r) =
          rw paren (by_tests (equal (before (codes " ") printed) []) (equal (trim_space r) []))
        where
          by_tests :
              (a b : Bool)
              → (if not a && (not b && not true) then trim_space r else printed) ≡ printed
          by_tests true b = refl
          by_tests false true = refl
          by_tests false false = refl

pub SimpleAggregateFunction-IsName : IsName (codes "SimpleAggregateFunction")
unfolding is_space
SimpleAggregateFunction-IsName = record {
  is_head = record {
    head = b'S';
    rest = codes "impleAggregateFunction";
    splits = refl;
    no_blank = refl;
    no_paren = omega arith;
  };
  no_close = omega arith;
  no_comma = omega arith;
  no_space = omega arith;
}

-- The type of an aggregate's state is its last argument.
pub elem_type-aggregate :
    (g t : Text)
    → IsArg g
    → IsArg t
    → elem_type (wrap (codes "SimpleAggregateFunction") (join (codes ", ") (g ∷ t ∷ []))) ≡ t
elem_type-aggregate g t hg ht =
    unfold elem_type has_own_args equal in
    rw
      (
        type_name-args SimpleAggregateFunction-IsName (g ∷ t ∷ []) (hg, (ht, tt)),
        split_top_level-join (g ∷ t ∷ []) (hg, (ht, tt)),
      )
      (unfold second_arg last_or in refl)

pub is_date_only-aggregate :
    (g t : Text)
    → IsArg g
    → IsArg t
    → is_date_only (wrap (codes "SimpleAggregateFunction") (join (codes ", ") (g ∷ t ∷ [])))
      ≡ is_date_only t
is_date_only-aggregate g t hg ht =
    is_date_only_of_elem SimpleAggregateFunction-IsName.is_head (join (codes ", ") (g ∷ t ∷ [])) t
      (elem_type-aggregate g t hg ht)
      (length-wrap-lt SimpleAggregateFunction-IsName.is_head (join (codes ", ") (g ∷ t ∷ [])) t (
        unfold join in
        omega (arith, length-append g (codes ", " ++ t), length-append (codes ", ") t)))
