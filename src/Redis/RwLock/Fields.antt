-- ===== src/Redis/RwLock/Fields.antt =====
-- The fields of the hash that a mode of the read-write lock stands for.
use lock_dis.Prelude.{
  suc, ◌≡◌, ◌≢◌, refl, sym, ap, ◌∙◌, inl, inr, Bool, true, false, ◌||◌, Option, none, some, String,
  List, [], ◌∷◌, if◌then◌else◌, same, same_iff, same_ne, same-wrap, wrap_prefix-ne, length,
  Bool-cases,
}
use lock_dis.Redis.Server.{Datum, with_field, is_some}
use lock_dis.Redis.RwLock.{reader_field}
use lock_dis.Redis.RwLock.Spec.{Mode, member, without}

-- The field registers one of the tokens.
abbrev pub registers : String → List String → Bool
registers f [] = false
registers f (t ∷ ts) = same (reader_field t) f || registers f ts

abbrev pub encode : Mode → String → Option Datum
encode (Mode.reading ts) f =
    if registers f ts
    then some (Datum.str "1")
    else if same "readers" f
    then some (Datum.int (length ts))
    else if same "mode" f
    then some (Datum.str "r")
    else none
encode (Mode.writing t) f =
    if same "owner" f
    then some (Datum.str t)
    else if same "mode" f
    then some (Datum.str "w")
    else none

-- The tokens are registered once each.
abbrev pub Distinct : List String → Type 0
Distinct [] = Unit
Distinct (t ∷ ts) = (member t ts ≡ false) × Distinct ts

pub reader_field-ne_mode : (t : String) → reader_field t ≢ "mode"
unfolding reader_field
reader_field-ne_mode t = wrap_prefix-ne "r:" "" t "mode" refl

pub reader_field-ne_readers : (t : String) → reader_field t ≢ "readers"
unfolding reader_field
reader_field-ne_readers t = wrap_prefix-ne "r:" "" t "readers" refl

same-reader_field : (a b : String) → same (reader_field a) (reader_field b) ≡ same a b
unfolding reader_field
same-reader_field a b = same-wrap "r:" "" a b

pub registers-reader_field :
    (token : String) (ts : List String) → registers (reader_field token) ts ≡ member token ts
registers-reader_field token [] = refl
registers-reader_field token (t ∷ ts) =
    rw (same-reader_field t token, registers-reader_field token ts)

pub registers_no :
    (f : String) (ts : List String) → ((t : String) → reader_field t ≢ f) → registers f ts ≡ false
registers_no f [] n = refl
registers_no f (t ∷ ts) n = rw (same_ne (reader_field t) f (n t), registers_no f ts n)

pub registers_mode : (ts : List String) → registers "mode" ts ≡ false
registers_mode ts = registers_no "mode" ts reader_field-ne_mode

pub registers_readers : (ts : List String) → registers "readers" ts ≡ false
registers_readers ts = registers_no "readers" ts reader_field-ne_readers

pub encode-mode : (ts : List String) → encode (Mode.reading ts) "mode" ≡ some (Datum.str "r")
encode-mode ts = rw (registers_mode ts)

pub encode-readers :
    (ts : List String) → encode (Mode.reading ts) "readers" ≡ some (Datum.int (length ts))
encode-readers ts = rw (registers_readers ts)

pub is_some-encode :
    (token : String) (ts : List String)
    → is_some (encode (Mode.reading ts) (reader_field token)) ≡ member token ts
is_some-encode token ts =
    let listed = registers-reader_field token ts in
    let not_count =
      same_ne "readers" (reader_field token) (λ e. reader_field-ne_readers token (sym e)) in
    let not_mode = same_ne "mode" (reader_field token) (λ e. reader_field-ne_mode token (sym e)) in
    elim (Bool-cases (member token ts)) [
      | inl e ↦ rw (listed, e)
      | inr e ↦ rw (listed, e, not_count, not_mode)
    ]

pub encode-fresh :
    (token : String)
    → with_field
        (with_field
          (with_field (λ _. none) "mode" (some (Datum.str "r")))
          "readers"
          (some (Datum.int 1)))
        (reader_field token)
        (some (Datum.str "1"))
      ≡ encode (Mode.reading (token ∷ []))
encode-fresh token i f = at_field f i
  where
    at_field :
        (f : String)
        → with_field
            (with_field
              (with_field (λ _. none) "mode" (some (Datum.str "r")))
              "readers"
              (some (Datum.int 1)))
            (reader_field token)
            (some (Datum.str "1"))
            f
          ≡ encode (Mode.reading (token ∷ [])) f
    at_field f = elim (Bool-cases (same (reader_field token) f)) [ inl e ↦ rw e | inr e ↦ rw e ]

-- Registering one more token.
pub encode-joined :
    (token : String) (ts : List String)
    → with_field
        (with_field (encode (Mode.reading ts)) "readers" (some (Datum.int (suc (length ts)))))
        (reader_field token)
        (some (Datum.str "1"))
      ≡ encode (Mode.reading (token ∷ ts))
encode-joined token ts i f = at_field f i
  where
    at_field :
        (f : String)
        → with_field
            (with_field (encode (Mode.reading ts)) "readers" (some (Datum.int (suc (length ts)))))
            (reader_field token)
            (some (Datum.str "1"))
            f
          ≡ encode (Mode.reading (token ∷ ts)) f
    at_field f = elim (Bool-cases (same (reader_field token) f)) [
      | inl e ↦ rw e
      | inr e ↦ elim (Bool-cases (same "readers" f)) [
        | inl q ↦ rw (e, q, rw ((same_iff "readers" f).0 q) at (registers_readers ts))
        | inr q ↦ rw (e, q)
      ]
    ]

registers-without :
    (f token : String) (ts : List String)
    → same (reader_field token) f ≡ false
    → registers f (without token ts) ≡ registers f ts
registers-without f token [] n = refl
registers-without f token (t ∷ ts) n = elim (Bool-cases (same t token)) [
  | inl e ↦ rw (e, (same_iff t token).0 e, n)
  | inr e ↦ rw (e, registers-without f token ts n)
]

pub length-without :
    (token : String) (ts : List String)
    → member token ts ≡ true
    → length ts ≡ suc (length (without token ts))
length-without token [] m = cc
length-without token (t ∷ ts) m = elim (Bool-cases (same t token)) [
  | inl e ↦ rw e
  | inr e ↦ rw e (ap suc (length-without token ts (rw e at m)))
]

pub member-without :
    (token : String) (ts : List String) → Distinct ts → member token (without token ts) ≡ false
member-without token [] d = refl
member-without token (t ∷ ts) d = elim (Bool-cases (same t token)) [
  | inl e ↦ rw (e, sym ((same_iff t token).0 e)) d.0
  | inr e ↦ rw (e, e) (member-without token ts d.1)
]

-- Removing a token, and one from the count.
pub encode-left :
    (token : String) (ts : List String)
    → Distinct ts
    → with_field
        (with_field (encode (Mode.reading ts)) (reader_field token) none)
        "readers"
        (some (Datum.int (length (without token ts))))
      ≡ encode (Mode.reading (without token ts))
encode-left token ts d i f = at_field f i
  where
    gone :
        (f : String)
        → reader_field token ≡ f
        → (registers f (without token ts) ≡ false) × (same "mode" f ≡ false)
    gone f e = (
      rw e at (registers-reader_field token (without token ts) ∙ member-without token ts d),
      same_ne "mode" f (λ z. reader_field-ne_mode token (e ∙ sym z)),
    )

    at_field :
        (f : String)
        → with_field
            (with_field (encode (Mode.reading ts)) (reader_field token) none)
            "readers"
            (some (Datum.int (length (without token ts))))
            f
          ≡ encode (Mode.reading (without token ts)) f
    at_field f = elim (Bool-cases (same "readers" f)) [
      | inl q ↦ rw (q, rw ((same_iff "readers" f).0 q) at (registers_readers (without token ts)))
      | inr q ↦ elim (Bool-cases (same (reader_field token) f)) [
        | inl e ↦
            let (unlisted, not_mode) = gone f ((same_iff (reader_field token) f).0 e) in
            rw (q, e, unlisted, not_mode)
        | inr e ↦ rw (q, e, registers-without f token ts e)
      ]
    ]
