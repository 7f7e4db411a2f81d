-- ===== src/Auth/Verifier/Grants.antt =====
-- internal/auth/verifier.go: the access gate and the choice of a name, in terms of membership.
use mathlib.Core.List.Memᴰ
use mathlib.Core.List.{Memᴰ}
use clickhouse_mcp.Auth.Verifier.{
  Item, text_item, other_item, Claim, absent, other, string, array, Claims, has, is_item, has_item,
  grants, access_allowed, usable, first_usable,
}
use clickhouse_mcp.Config.Numbers.{fields}
use clickhouse_mcp.Config.{is_unset}
use clickhouse_mcp.Prelude.{
  Bool, true, false, ◌||◌, List, [], ◌∷◌, ◌≡◌, ◌≢◌, ◌⊎◌, inl, inr, ◌↔◌, refl, sym, ap, subst, ◌∙◌,
  Bool-cases, if◌then◌else◌,
}
use clickhouse_mcp.Text.{Text, equal, equal_iff, trim_space}

or-cases : (a b : Bool) → a || b ≡ true → (a ≡ true) ⊎ (b ≡ true)
or-cases true b h = inl refl
or-cases false b h = inr h

or-left : (a b : Bool) → a ≡ true → a || b ≡ true
or-left a b h = rw h refl

or-right : (a b : Bool) → b ≡ true → a || b ≡ true
or-right true b h = refl
or-right false b h = h

pub has-Memᴰ : (list : List Text) (want : Text) → (has list want ≡ true) ↔ Memᴰ want list
unfolding has
has-Memᴰ [] want = (λ e. cc, λ m. absurd (Memᴰ.not-nil m))
has-Memᴰ (s ∷ list) want = (
  λ e. elim (or-cases (equal s want) (has list want) e) [
    | inl f ↦ Memᴰ.head (sym ((equal_iff s want).0 f))
    | inr f ↦ Memᴰ.tail ((has-Memᴰ list want).0 f)
  ],
  λ m. elim (Memᴰ.cases_cons m) [
    | inl f ↦ or-left _ _ ((equal_iff s want).1 (sym f))
    | inr n ↦ or-right _ _ ((has-Memᴰ list want).1 n)
  ],
)

is_item_iff : (i : Item) (want : Text) → (is_item i want ≡ true) ↔ (text_item want ≡ i)
unfolding is_item
is_item_iff (text_item s) want =
    (λ e. ap text_item (sym ((equal_iff s want).0 e)), λ e. (equal_iff s want).1 (cc e))
is_item_iff other_item want = (λ e. cc, λ e. cc)

has_item-Memᴰ :
    (items : List Item) (want : Text) → (has_item items want ≡ true) ↔ Memᴰ (text_item want) items
unfolding has_item
has_item-Memᴰ [] want = (λ e. cc, λ m. absurd (Memᴰ.not-nil m))
has_item-Memᴰ (i ∷ items) want = (
  λ e. elim (or-cases (is_item i want) (has_item items want) e) [
    | inl f ↦ Memᴰ.head ((is_item_iff i want).0 f)
    | inr f ↦ Memᴰ.tail ((has_item-Memᴰ items want).0 f)
  ],
  λ m. elim (Memᴰ.cases_cons m) [
    | inl f ↦ or-left _ _ ((is_item_iff i want).1 f)
    | inr n ↦ or-right _ _ ((has_item-Memᴰ items want).1 n)
  ],
)

pub is_unset_iff : (v : Text) → (is_unset v ≡ true) ↔ (v ≡ [])
unfolding is_unset
is_unset_iff v = equal_iff v []

pub is_unset_none : (v : Text) → v ≢ [] → is_unset v ≡ false
is_unset_none v n = elim (Bool-cases (is_unset v)) [
  | inl u ↦ absurd (n ((is_unset_iff v).0 u))
  | inr u ↦ u
]

-- The claim carries the value: as one of the words of a text, or as an item of an array.
unfoldable pub Carries : Claim → Text → Type 0
Carries (string s) want = Memᴰ want (fields s)
Carries (array items) want = Memᴰ (text_item want) items
Carries absent want = ⊥
Carries other want = ⊥

grants-Carries : (c : Claim) (want : Text) → (grants c want ≡ true) ↔ Carries c want
unfolding grants Carries
grants-Carries (string s) want = has-Memᴰ (fields s) want
grants-Carries (array items) want = has_item-Memᴰ items want
grants-Carries absent want = (λ e. cc, λ m. absurd m)
grants-Carries other want = (λ e. cc, λ m. absurd m)

-- The access gate: there is none, or the named claim carries the value.
abbrev pub IsAllowed : Claims → Text → Text → Type 0
IsAllowed claims claim want = (claim ≡ []) ⊎ Carries (claims claim) want

pub access_allowed-IsAllowed :
    (claims : Claims) (claim want : Text)
    → (access_allowed claims claim want ≡ true) ↔ IsAllowed claims claim want
unfolding access_allowed
access_allowed-IsAllowed claims claim want = elim (Bool-cases (is_unset claim)) [
  | inl e ↦ rw e (λ _. inl ((is_unset_iff claim).0 e), λ _. refl)
  | inr e ↦ rw e (
    λ h. inr ((grants-Carries (claims claim) want).0 h),
    λ h. elim h [
      | inl f ↦ absurd (given e ((is_unset_iff claim).1 f))
      | inr g ↦ (grants-Carries (claims claim) want).1 g
    ],
  )
]
  where
    given : {b : Bool} → b ≡ false → b ≡ true → ⊥
    given h e = cc

-- A claim that gives no name: no text, or one of blanks.
unfoldable pub IsNameless : Claim → Type 0
IsNameless (string s) = trim_space s ≡ []
IsNameless (array items) = Unit
IsNameless absent = Unit
IsNameless other = Unit

-- The trimmed text of the first of some claims that has more than blanks.
pub data Names (claims : Claims) (user : Text) : List Text → Type 0 where
  here :
      {key : Text} {keys : List Text} (s : Text)
      → claims key ≡ string s
      → trim_space s ≡ user
      → user ≢ []
      → Names claims user (key ∷ keys)
  later :
      {key : Text} {keys : List Text}
      → IsNameless (claims key)
      → Names claims user keys
      → Names claims user (key ∷ keys)

usable_text :
    (c : Claim) (user : Text)
    → usable c ≡ user
    → user ≢ []
    → (s : Text) × (c ≡ string s) × (trim_space s ≡ user)
unfolding usable
usable_text (string s) user e n = (s, refl, e)
usable_text (array items) user e n = absurd (n (sym e))
usable_text absent user e n = absurd (n (sym e))
usable_text other user e n = absurd (n (sym e))

usable-IsNameless : (c : Claim) → (usable c ≡ []) ↔ IsNameless c
unfolding usable IsNameless
usable-IsNameless (string s) = (λ e. e, λ e. e)
usable-IsNameless (array items) = (λ e. tt, λ e. refl)
usable-IsNameless absent = (λ e. tt, λ e. refl)
usable-IsNameless other = (λ e. tt, λ e. refl)

usable-string : (c : Claim) (s : Text) → c ≡ string s → usable c ≡ trim_space s
unfolding usable
usable-string c s e = rw e refl

pub Names-first :
    (claims : Claims) (user : Text) (keys : List Text)
    → first_usable keys claims ≡ user
    → user ≢ []
    → Names claims user keys
unfolding first_usable
Names-first claims user [] e n = absurd (n (sym e))
Names-first claims user (key ∷ keys) e n = elim (Bool-cases (is_unset (usable (claims key)))) [
  | inl u ↦
      later ((usable-IsNameless (claims key)).0 ((is_unset_iff _).0 u))
        (Names-first claims user keys (by_if _ _ _ u e) n)
  | inr u ↦
      let (s, is_text, name) = usable_text (claims key) user (by_else _ _ _ u e) n in
      here s is_text name n
]
  where
    by_if : (b : Bool) (x y : Text) → b ≡ true → (if b then x else y) ≡ user → x ≡ user
    by_if b x y h e = subst (λ c. (if c then x else y) ≡ user) h e

    by_else : (b : Bool) (x y : Text) → b ≡ false → (if b then x else y) ≡ user → y ≡ user
    by_else b x y h e = subst (λ c. (if c then x else y) ≡ user) h e

pub first_usable-Names :
    {claims : Claims} {user : Text} {keys : List Text}
    → Names claims user keys
    → (first_usable keys claims ≡ user) × (user ≢ [])
unfolding first_usable
first_usable-Names {claims} {user} (here {key} s is_text name n) =
    let e : usable (claims key) ≡ user = usable-string (claims key) s is_text ∙ name in
    (rw (is_unset_none _ (λ x. n (sym e ∙ x))) e, n)
first_usable-Names {claims} {user} (later {key} e h) =
    let (f, n) = first_usable-Names h in
    (rw ((is_unset_iff _).1 ((usable-IsNameless (claims key)).1 e)) f, n)
