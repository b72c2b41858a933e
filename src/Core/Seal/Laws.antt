-- ===== src/Core/Seal/Laws.antt =====
-- What a seal promises, and what it does not.
use lock_dis.Prelude.{
  ℕ, ◌+◌, ◌≤◌, ◌≡◌, ◌↔◌, ◌⊎◌, refl, sym, inl, inr, true, false, List, ◌++◌, ltb, arith, Bool-cases,
}
use mathlib.Core.List.{append_assoc}
use lock_dis.Core.Seal.{hmac, seal, verify, too_old}
use lock_dis.Core.Seal.Compare.{constant_time_eq_iff}

too_old_iff :
    (now issued_at max_age : ℕ)
    → (too_old now issued_at max_age ≡ false) ↔ ((max_age ≡ 0) ⊎ (now ≤ issued_at + max_age))
unfolding too_old
too_old_iff now issued_at max_age = (
  λ e. elim (Bool-cases (ltb 0 max_age)) [
    | inl p ↦ inr (ground arith)
    | inr p ↦ inl (ground arith)
  ],
  λ h. elim h [ inl z ↦ ground arith | inr le ↦ ground arith ],
)

-- A seal is accepted exactly when it is the hash of the secret, the key, the fence and the time of
-- issue that is shown with it, and it is not older than the age allowed, if one is set.
pub verify_iff :
    (now : ℕ) (secret key : List ℕ) (fence : ℕ) (tag : List ℕ) (issued_at max_age : ℕ)
    → (verify now secret key fence tag issued_at max_age ≡ true)
      ↔ ((tag ≡ hmac secret key fence issued_at) × ((max_age ≡ 0) ⊎ (now ≤ issued_at + max_age)))
unfolding verify
verify_iff now secret key fence tag issued_at max_age = (sound, complete)
  where
    sound :
        verify now secret key fence tag issued_at max_age ≡ true
        → (tag ≡ hmac secret key fence issued_at) × ((max_age ≡ 0) ⊎ (now ≤ issued_at + max_age))
    sound e = elim (Bool-cases (too_old now issued_at max_age)) [
      | inl old ↦ absurd (ground arith)
      | inr young ↦ (
        sym ((constant_time_eq_iff (hmac secret key fence issued_at) tag).0 (ground arith)),
        (too_old_iff now issued_at max_age).0 young,
      )
    ]

    complete :
        (tag ≡ hmac secret key fence issued_at) × ((max_age ≡ 0) ⊎ (now ≤ issued_at + max_age))
        → verify now secret key fence tag issued_at max_age ≡ true
    complete h =
        rw ((too_old_iff now issued_at max_age).1 h.1)
          ((constant_time_eq_iff (hmac secret key fence issued_at) tag).1 (sym h.0))

-- Where the secret ends and the key starts leaves no trace in the hash.
hmac-shift :
    (secret part key : List ℕ) (fence ts : ℕ)
    → hmac (secret ++ part) key fence ts ≡ hmac secret (part ++ key) fence ts
unfolding hmac
hmac-shift secret part key fence ts = simp append_assoc

-- A seal is verified with the secret, the key and the fence that it was made for, and a time of
-- issue of 0, exactly when no age is demanded or the clock itself shows no more than that age. The
-- same holds with the boundary between secret and key moved to the left.
pub verify-seal :
    (now : ℕ) (secret part key : List ℕ) (fence max_age : ℕ)
    → ((verify now (secret ++ part) key fence (seal (secret ++ part) key fence) 0 max_age ≡ true)
        ↔ ((max_age ≡ 0) ⊎ (now ≤ max_age)))
      × ((verify now secret (part ++ key) fence (seal (secret ++ part) key fence) 0 max_age ≡ true)
          ↔ ((max_age ≡ 0) ⊎ (now ≤ max_age)))
unfolding seal
verify-seal now secret part key fence max_age = (
  own (secret ++ part) key (seal (secret ++ part) key fence) refl,
  own secret (part ++ key) (seal (secret ++ part) key fence) (hmac-shift secret part key fence 0),
)
  where
    own :
        (s k tag : List ℕ)
        → tag ≡ hmac s k fence 0
        → (verify now s k fence tag 0 max_age ≡ true) ↔ ((max_age ≡ 0) ⊎ (now ≤ max_age))
    own s k tag e = (
      λ v. elim ((verify_iff now s k fence tag 0 max_age).0 v).1 [
        | inl z ↦ inl z
        | inr le ↦ inr (omega arith)
      ],
      λ h.
          (verify_iff now s k fence tag 0 max_age).1
            (e, elim h [ inl z ↦ inl z | inr le ↦ inr (omega arith) ]),
    )
