-- ===== src/Redis/Manager/Freed.antt =====
-- A key that never shows a token again: after a release by that token that reaches the server, and
-- after an acquisition that is refused.
use lock_dis.Prelude.{
  ltb, ◌+◌, suc, ℕ, ◌≤◌, ◌≡◌, ◌≢◌, ◌⊎◌, ◌==◌, refl, sym, ap, ◌∙◌, inl, inr, true, false, Option,
  none, some, String, same, same_iff, same_refl, arith, Bool-cases, ok, err, Result,
}
use lock_dis.Redis.Server.{Redis, Value, as_text, until, is_some}
use lock_dis.Redis.Mutex.{is_token, release}
use lock_dis.Redis.Manager.{
  Trip, Error, Link, call, unlock_with_token, is_one, Handle, handle_release, on_released,
}

pub is_token-same :
    (o : Option Value) (token : String)
    → is_token (as_text o) token ≡ true
    → o ≡ some (Value.text token)
is_token-same none token e = cc
is_token-same (some (Value.text v)) token e = ap (λ x. some (Value.text x)) ((same_iff v token).0 e)
is_token-same (some (Value.number n)) token e = cc
is_token-same (some (Value.hash h)) token e = cc
is_token-same (some (Value.zset ms)) token e = cc

token-is_token :
    (o : Option Value) (token : String)
    → o ≡ some (Value.text token)
    → is_token (as_text o) token ≡ true
token-is_token o token e = rw e (same_refl token)

text_of : (t d : ℕ) (v w : String) → until t d (Value.text v) ≡ some (Value.text w) → v ≡ w
text_of t d v w e = elim (Bool-cases (ltb t d)) [
  | inl q ↦ let z : some (Value.text v) ≡ some (Value.text w) = rw q at e in cc
  | inr q ↦ let z : ◌≡◌ {A = Option Value} none (some (Value.text w)) = rw q at e in cc
]

module _ (r : Redis) (key token : String) where
  open r use {Store, read, get, del}

  -- From `now` on the key does not show the token.
  abbrev pub Freed : Store → ℕ → Type 0
  Freed s now = (t : ℕ) → now ≤ t → read s t key ≢ some (Value.text token)

  -- Once a key does not show a token, it never does without a further call.
  pub get-Freed : (s : Store) (now : ℕ) → is_token (get s now key) token ≡ false → Freed s now
  get-Freed s now e t le shown =
      let before : read s now key ≡ some (Value.text token) =
        r.lapse s now t key (Value.text token) le shown in
      absurd (clash (token-is_token (read s now key) token before))
    where
      clash : is_token (as_text (read s now key)) token ≡ true → ⊥
      clash q = let z = ap (λ x. is_token x token) (r.get-reply s now key) in cc

  pub Freed-later : (s : Store) (t u : ℕ) → t ≤ u → Freed s t → Freed s u
  Freed-later s t u le free v after = free v (omega arith)

  pub del-Freed : (s : Store) (now : ℕ) → Freed (del s now key).0 now
  del-Freed s now t le shown =
      let gone : read (del s now key).0 t key ≡ none =
        r.del-read s now key t key le ∙ rw (same_refl key) in
      cc

  pub release-Freed : (s : Store) (now : ℕ) → Freed (release r s now key token).0 now
  unfolding release
  release-Freed s now = elim (Bool-cases (is_token (get s now key) token)) [
    | inl e ↦ rw e (del-Freed s now)
    | inr e ↦ rw e (get-Freed s now e)
  ]

  del_other-Freed : (s : Store) (now : ℕ) (k : String) → Freed s now → Freed (del s now k).0 now
  del_other-Freed s now k free t le shown = elim (Bool-cases (same k key)) [
    | inl e ↦
        let gone : read (del s now k).0 t key ≡ none = r.del-read s now k t key le ∙ rw e in cc
    | inr e ↦
        let kept : read (del s now k).0 t key ≡ read s t key = r.del-read s now k t key le ∙ rw e in
        free t le (sym kept ∙ shown)
  ]

  -- Nor does another token that takes the key.
  pub set_nx_px_other-Freed :
      (s : Store) (now : ℕ) (k other : String) (ttl : ℕ)
      → other ≢ token
      → Freed s now
      → Freed (r.set_nx_px s now k other ttl).0 now
  set_nx_px_other-Freed s now k other ttl ne free t le shown =
      let after = r.set_nx_px-read s now k other ttl t key le in
      elim (Bool-cases (is_some (read s now k))) [
        | inl e ↦ free t le (sym (after ∙ rw e) ∙ shown)
        | inr e ↦ elim (Bool-cases (same k key)) [
          | inr q ↦ free t le (sym (after ∙ rw (e, q)) ∙ shown)
          | inl q ↦
              let theirs : until t (now + ttl) (Value.text other) ≡ some (Value.text token) =
                sym (after ∙ rw (e, q)) ∙ shown in
              absurd (ne (text_of t (now + ttl) other token theirs))
        ]
      ]

  -- Releases, of whatever key and by whatever token, do not bring it back.
  pub release_other-Freed :
      (s : Store) (now : ℕ) (k other : String) → Freed s now → Freed (release r s now k other).0 now
  unfolding release
  release_other-Freed s now k other free = elim (Bool-cases (is_token (get s now k) other)) [
    | inl e ↦ rw e (del_other-Freed s now k free)
    | inr e ↦ rw e free
  ]

call_arrived {ℓ} :
    {S : Type ℓ} {A : Type 0} (link : Link) (s : S) (done : S × A)
    → link ≢ Link.request_lost
    → (call link s done).0 ≡ done.0
unfolding call
call_arrived Link.up s done n = refl
call_arrived Link.request_lost s done n = absurd (n refl)
call_arrived Link.reply_lost s done n = refl

-- The store after an attempt at a call: as before, or as after the call.
call_cases {ℓ} :
    {S : Type ℓ} {A : Type 0} (link : Link) (s : S) (done : S × A)
    → ((call link s done).0 ≡ s) ⊎ ((call link s done).0 ≡ done.0)
unfolding call
call_cases Link.up s done = inr refl
call_cases Link.request_lost s done = inl refl
call_cases Link.reply_lost s done = inr refl

module _ (r : Redis) where
  open r use {Store, read}

  is_one_store : (res : Store × Result Error ℕ) → (is_one r res).0 ≡ res.0
  is_one_store (s, err e) = refl
  is_one_store (s, ok n) = refl

  on_released_store : (res : Store × Result Error ℕ) (h : Handle) → (on_released r res h).0 ≡ res.0
  unfolding on_released
  on_released_store (s, err e) h = refl
  on_released_store (s, ok n) h = elim (Bool-cases (n == 1)) [ inl e ↦ rw e | inr e ↦ rw e ]

  pub unlock_with_token-Freed :
      (link : Link) (s : Store) (now : ℕ) (key token : String)
      → link ≢ Link.request_lost
      → Freed r key token (unlock_with_token r link s now key token).0 now
  unfolding unlock_with_token
  unlock_with_token-Freed link s now key token n =
      rw (is_one_store (call link s (release r s now key token)))
        (rw (call_arrived link s (release r s now key token) n) (release-Freed r key token s now))

  pub unlock_other-Freed :
      (link : Link) (s : Store) (now : ℕ) (k other key token : String)
      → Freed r key token s now
      → Freed r key token (unlock_with_token r link s now k other).0 now
  unfolding unlock_with_token
  unlock_other-Freed link s now k other key token free =
      rw (is_one_store (call link s (release r s now k other)))
        (elim (call_cases link s (release r s now k other)) [
          | inl e ↦ rw e free
          | inr e ↦ rw e (release_other-Freed r key token s now k other free)
        ])

  pub handle_release-Freed :
      (link : Link) (s : Store) (now : ℕ) (h : Handle)
      → link ≢ Link.request_lost
      → h.released ≡ false
      → Freed r h.key h.token (handle_release r link s now h).0 now
  unfolding handle_release
  handle_release-Freed link s now h n live = simp live (
      rw
        (on_released_store (call link s (release r s now h.key h.token))
          (record h { released = true }))
        (rw (call_arrived link s (release r s now h.key h.token) n)
          (release-Freed r h.key h.token s now)))

  pub handle_release_other-Freed :
      (link : Link) (s : Store) (now : ℕ) (h : Handle) (key token : String)
      → Freed r key token s now
      → Freed r key token (handle_release r link s now h).0 now
  unfolding handle_release
  handle_release_other-Freed link s now h key token free = elim (Bool-cases h.released) [
    | inl e ↦ simp e free
    | inr e ↦ simp e (
        rw
          (on_released_store (call link s (release r s now h.key h.token))
            (record h { released = true }))
          (elim (call_cases link s (release r s now h.key h.token)) [
            | inl q ↦ rw q free
            | inr q ↦ rw q (release_other-Freed r key token s now h.key h.token free)
          ]))
  ]

module _ (r : Redis) (trips : ℕ → Trip r.Store) where
  -- What others do between the calls does not bring the token back to the key.
  abbrev pub Quiet : (key token : String) → Type 0
  Quiet key token =
      (i : ℕ) (s : r.Store)
      → Freed r key token s (trips i).now
      → Freed r key token ((trips i).meanwhile s) (trips i).now

  -- The calls reach the store, one after the other, and none later than `u`.
  pub record Orderly (u : ℕ) : Type 0 where
    pub arrives : (i : ℕ) → (trips i).link ≢ Link.request_lost
    pub in_order : (i : ℕ) → (trips i).now ≤ (trips (suc i)).now
    pub over : (i : ℕ) → (trips i).now ≤ u
