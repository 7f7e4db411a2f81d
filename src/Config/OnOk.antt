-- ===== src/Config/OnOk.antt =====
-- internal/config/config.go: a property of a result, where the loader gives one.
use clickhouse_mcp.Config.{ConfigError, Loaded, ok, err, ◌>>=◌, ◌>>◌, refuse_if}
use clickhouse_mcp.Prelude.{Bool, true, false, ◌≡◌, refl, subst}

-- A property of the result, where there is one.
unfoldable pub OnOk : {A : Type 0} → (A → Type 0) → Loaded A → Type 0
OnOk P (ok a) = P a
OnOk P (err e) = Unit

-- A chain of two steps: the second has what the first is sure of.
pub OnOk-bind :
    {A B : Type 0} (P : A → Type 0) (Q : B → Type 0) (m : Loaded A) (k : A → Loaded B)
    → OnOk P m
    → ((a : A) → P a → OnOk Q (k a))
    → OnOk Q (m >>= k)
unfolding OnOk ◌>>=◌
OnOk-bind P Q (ok a) k h f = f a h
OnOk-bind P Q (err e) k h f = tt

pub OnOk-any :
    {A B : Type 0} (Q : B → Type 0) (m : Loaded A) (k : A → Loaded B)
    → ((a : A) → OnOk Q (k a))
    → OnOk Q (m >>= k)
unfolding OnOk ◌>>=◌
OnOk-any Q (ok a) k f = f a
OnOk-any Q (err e) k f = tt

pub OnOk-guard :
    {B : Type 0} (Q : B → Type 0) (b : Bool) (e : ConfigError) (m : Loaded B)
    → (b ≡ false → OnOk Q m)
    → OnOk Q (refuse_if b e >> m)
unfolding OnOk ◌>>◌ ◌>>=◌ refuse_if
OnOk-guard Q true e m f = tt
OnOk-guard Q false e m f = f refl

pub OnOk-of : {A : Type 0} (P : A → Type 0) (a : A) → P a → OnOk P (ok a)
unfolding OnOk
OnOk-of P a h = h

pub OnOk-ok : {A : Type 0} (P : A → Type 0) (m : Loaded A) (a : A) → OnOk P m → m ≡ ok a → P a
unfolding OnOk
OnOk-ok P m a h e = subst (OnOk P) e h
