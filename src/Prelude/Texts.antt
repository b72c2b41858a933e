-- ===== src/Prelude/Texts.antt =====
-- Equality of texts, and the names of keys.
use Prim.Native.String.{String, ◌++◌}
use mathlib.Core.Path.{◌≡◌, ap}
use mathlib.Core.Logic.{◌↔◌, ◌≢◌}
use mathlib.Core.Bool.{Bool, true, false}
use native.Mathlib.Omega.{arith}
use text.Mathlib.Text.{◌==◌}
use text.Mathlib.TextEquality.{eq_iff}
use text.Mathlib.TextPositions.{eq_refl}
use text.Mathlib.TextLemmas.{length-append}
use Prim.Native.String.{count}
use text.Mathlib.TextLemmas.{append_cancel_left, append_cancel_right}
use text.Mathlib.TextPositions.{starts_with-append}
use text.Mathlib.Text.{starts_with}
use mathlib.Core.Bool.{false≢true}
use mathlib.Core.Path.{sym, ◌∙◌}
use mathlib.Core.Logic.{inl, inr}
use lock_dis.Prelude.Tests.{Bool-cases}

-- `a == b` on strings
abbrev pub same : String → String → Bool
same a b = a == b

pub same_iff : (a b : String) → (same a b ≡ true) ↔ (a ≡ b)
same_iff a b = eq_iff a b

pub same_refl : (a : String) → same a a ≡ true
same_refl a = eq_refl a

-- `format!("{prefix}{a}{suffix}")`
unfoldable pub wrap : String → String → String → String
wrap pre suf a = pre ++ (a ++ suf)

-- A longer text is another text.
pub wrap-ne : (pre suf a : String) → count suf ≢ 0 → wrap pre suf a ≢ a
unfolding wrap
wrap-ne pre suf a h e =
    h (omega (arith, ap count e, length-append pre (a ++ suf), length-append a suf))

pub same_ne : (a b : String) → a ≢ b → same a b ≡ false
same_ne a b n = ground (arith, eq_iff a b)

-- A text with a prefix is not one without it.
pub wrap_prefix-ne : (pre suf a b : String) → starts_with b pre ≡ false → wrap pre suf a ≢ b
unfolding wrap
wrap_prefix-ne pre suf a b no_prefix e = absurd (
    false≢true
      (sym no_prefix ∙ (ap (λ x. starts_with x pre) (sym e) ∙ starts_with-append pre (a ++ suf))))

pub same-wrap : (pre suf a b : String) → same (wrap pre suf a) (wrap pre suf b) ≡ same a b
unfolding wrap
same-wrap pre suf a b = elim (Bool-cases (same a b)) [
  | inl e ↦ rw e (rw ((same_iff a b).0 e) (same_refl (wrap pre suf b)))
  | inr e ↦ rw e (
      same_ne (wrap pre suf a) (wrap pre suf b) (λ q.
        apart e (append_cancel_right a b suf (append_cancel_left pre (a ++ suf) (b ++ suf) q))))
]
  where
    apart : same a b ≡ false → a ≢ b
    apart e q = absurd (false≢true (sym e ∙ rw q (same_refl b)))
