-- ===== src/Query/Serialize/Names.antt =====
-- The constructors of ClickHouse's types, by name, and the argument that a field is.
use clickhouse_mcp.Prelude.{[], ◌∷◌, ◌++◌, ◌≡◌, ◌≢◌, refl, ap, sym, ◌∙◌, arith}
use clickhouse_mcp.Query.Serialize.Fits.{IsFieldName}
use clickhouse_mcp.Query.Types.Applied.{IsName, balances-word, wrap-IsArg}
use clickhouse_mcp.Query.Types.Args.{IsArg}
use clickhouse_mcp.Query.Types.Wrapped.{wrap, IsWrapper}
use clickhouse_mcp.Query.Types.{has_own_args}
use clickhouse_mcp.Text.{
  Text, codes, equal, join, trim_space, trim_left, trim_right, keep_right, is_space,
  trim_space_stop, trim_right-append, trim_right_idem,
}

pub nullable-IsWrapper : IsWrapper (codes "Nullable")
unfolding is_space has_own_args equal
nullable-IsWrapper = record {
  is_head = record {
    head = b'N';
    rest = codes "ullable";
    splits = refl;
    no_blank = refl;
    no_paren = omega arith;
  };
  one_arg = refl;
  no_aggregate = refl;
}

pub low_cardinality-IsWrapper : IsWrapper (codes "LowCardinality")
unfolding is_space has_own_args equal
low_cardinality-IsWrapper = record {
  is_head = record {
    head = b'L';
    rest = codes "owCardinality";
    splits = refl;
    no_blank = refl;
    no_paren = omega arith;
  };
  one_arg = refl;
  no_aggregate = refl;
}

pub array-IsWrapper : IsWrapper (codes "Array")
unfolding is_space has_own_args equal
array-IsWrapper = record {
  is_head = record {
    head = b'A';
    rest = codes "rray";
    splits = refl;
    no_blank = refl;
    no_paren = omega arith;
  };
  one_arg = refl;
  no_aggregate = refl;
}

pub nullable-IsName : IsName (codes "Nullable")
nullable-IsName = record {
  is_head = nullable-IsWrapper.is_head;
  no_close = omega arith;
  no_comma = omega arith;
  no_space = omega arith;
}

pub low_cardinality-IsName : IsName (codes "LowCardinality")
low_cardinality-IsName = record {
  is_head = low_cardinality-IsWrapper.is_head;
  no_close = omega arith;
  no_comma = omega arith;
  no_space = omega arith;
}

pub array-IsName : IsName (codes "Array")
array-IsName = record {
  is_head = array-IsWrapper.is_head;
  no_close = omega arith;
  no_comma = omega arith;
  no_space = omega arith;
}

pub map-IsName : IsName (codes "Map")
unfolding is_space
map-IsName = record {
  is_head = record {
    head = b'M';
    rest = codes "ap";
    splits = refl;
    no_blank = refl;
    no_paren = omega arith;
  };
  no_close = omega arith;
  no_comma = omega arith;
  no_space = omega arith;
}

pub tuple-IsName : IsName (codes "Tuple")
unfolding is_space
tuple-IsName = record {
  is_head = record {
    head = b'T';
    rest = codes "uple";
    splits = refl;
    no_blank = refl;
    no_paren = omega arith;
  };
  no_close = omega arith;
  no_comma = omega arith;
  no_space = omega arith;
}

pub date-IsArg : IsArg (codes "Date")
date-IsArg = record {
  balanced = refl;
  trimmed = unfold trim_space trim_left trim_right keep_right is_space in refl;
  not_nil = λ e. cc;
}

pub date32-IsArg : IsArg (codes "Date32")
date32-IsArg = record {
  balanced = refl;
  trimmed = unfold trim_space trim_left trim_right keep_right is_space in refl;
  not_nil = λ e. cc;
}

-- One argument in parens.
pub enclosed-IsArg : {name : Text} (t : Text) → IsName name → IsArg t → IsArg (wrap name t)
enclosed-IsArg t n h = unfold join in wrap-IsArg (t ∷ []) n (h, tt)

pub trim_right_of_trimmed : (t : Text) → trim_space t ≡ t → trim_right is_space t ≡ t
trim_right_of_trimmed t h = ap (trim_right is_space) (sym h) ∙ twice t ∙ h
  where
    twice : (t : Text) → trim_right is_space (trim_space t) ≡ trim_space t
    twice t = unfold trim_space in trim_right_idem is_space (trim_left is_space t)

pub trim_right_stays :
    (a t : Text) → trim_right is_space t ≡ t → t ≢ [] → trim_right is_space (a ++ t) ≡ a ++ t
trim_right_stays a t h given =
    trim_right-append is_space a t (λ e. given (sym h ∙ e)) ∙ ap (λ w. a ++ w) h

-- A field's name and type.
pub named_field-IsArg : (name t : Text) → IsFieldName name → IsArg t → IsArg (name ++ (b' ' ∷ t))
named_field-IsArg name t n h = record {
  balanced = balances-word 0 name (b' ' ∷ t) n.no_open n.no_close n.no_comma ∙ h.balanced;
  trimmed = trimmed;
  not_nil = λ e. let bad = sym (ap (λ w. w ++ (b' ' ∷ t)) n.splits) ∙ e in cc;
}
  where
    behind : trim_right is_space (n.rest ++ (b' ' ∷ t)) ≡ n.rest ++ (b' ' ∷ t)
    behind =
        trim_right_stays n.rest (b' ' ∷ t)
          (trim_right_stays (codes " ") t (trim_right_of_trimmed t h.trimmed) h.not_nil) (λ e. cc)

    trimmed : trim_space (name ++ (b' ' ∷ t)) ≡ name ++ (b' ' ∷ t)
    trimmed =
        ap (λ w. trim_space (w ++ (b' ' ∷ t))) n.splits
        ∙ trim_space_stop n.head (n.rest ++ (b' ' ∷ t)) n.no_blank
        ∙ ap (λ w. n.head ∷ w) behind
        ∙ sym (ap (λ w. w ++ (b' ' ∷ t)) n.splits)
