-- ===== src/Crypto/Pake/Agreement.antt =====
-- pake.rs: who knows the PIN derives the host's key, and the attempts are counted.
use remote.Prelude.{
  ◌∙◌, ℕ, List, ◌≡◌, ◌+◌, ◌==◌, not, ◌||◌, refl, true, some, ok, err, inl, inr, arith, Bool-cases,
  length,
}
use remote.Crypto.Primitives.{Primitives, IsLawful, Exchange}
use remote.Crypto.Pake.{
  malformed_pin, PinVerifier, start, finish, respond, exchange_of, pake_password, is_usable, as_key,
  with_message, all_digits, pin_digits, id_controller, id_host,
}

-- The verifier after an answer: one attempt more.
abbrev pub counted : PinVerifier → PinVerifier
counted v = record v { pin = record (v.pin) { attempts = v.pin.attempts + 1 } }

as_key-ok : (key : List ℕ) → length key ≡ 32 → as_key (some key) ≡ ok key
unfolding as_key
as_key-ok key h = ground arith

module _ (c : Primitives) where
  start-ok :
      (session_id pin : List ℕ) (random : ℕ) (e : Exchange)
      → start c session_id pin random ≡ ok e
      → c.start_a (pake_password c session_id pin) id_controller id_host random ≡ e
  unfolding start
  start-ok session_id pin random e h =
      elim (Bool-cases (not (length pin == pin_digits) || not (all_digits pin))) [
        | inl bad ↦
            let at : start c session_id pin random ≡ err malformed_pin = rw (start, bad) refl in
            absurd cc
        | inr fine ↦
            let at : start c session_id pin random
                ≡ ok (c.start_a (pake_password c session_id pin) id_controller id_host random) =
              rw (start, fine) refl in
            cc
      ]

  pub start_accepts :
      (session_id pin : List ℕ) (random : ℕ)
      → length pin ≡ 6
      → all_digits pin ≡ true
      → start c session_id pin random
        ≡ ok (c.start_a (pake_password c session_id pin) id_controller id_host random)
  unfolding start
  start_accepts session_id pin random six digits = ground arith

  respond-usable :
      (message : List ℕ) (now_ms random : ℕ) (v : PinVerifier)
      → is_usable v.pin now_ms ≡ true
      → respond c message now_ms random v ≡ (
        counted v,
        with_message
            (exchange_of c v random).outbound
            (as_key ((exchange_of c v random).finish message)),
      )
  unfolding respond
  respond-usable message now_ms random v usable = rw (usable, respond) refl

  -- A usable PIN and the controller's round with the same digits end in the same 32 bytes on both
  -- sides, and the answer counts as an attempt.
  pub agreement :
      (law : IsLawful c) (v : PinVerifier) (now_ms random other : ℕ) (e : Exchange)
      → is_usable v.pin now_ms ≡ true
      → start c v.session_id v.pin.digits other ≡ ok e
      → (key : List ℕ) × (respond c e.outbound now_ms random v
          ≡ (counted v, ok ((exchange_of c v random).outbound, key)))
        × (finish e (exchange_of c v random).outbound ≡ ok key)
        × (length key ≡ 32)
  unfolding finish with_message exchange_of
  agreement law v now_ms random other e usable started =
      let w = pake_password c v.session_id v.pin.digits in
      let (key, derived, l) = law.finish_b w id_controller id_host other random in
      let same = start-ok v.session_id v.pin.digits other e started in
      (
        key,
        respond-usable e.outbound now_ms random v usable
            ∙ rw (← same, derived, as_key-ok key l) refl,
        rw (← same, law.finish_a w id_controller id_host other random, derived) (as_key-ok key l),
        l,
      )
