-- ===== src/Crypto/Binding/Unambiguous.antt =====
-- binding.rs: the signed message determines everything that it binds.
use remote.Prelude.{◌∙◌, ℕ, List, [], ◌∷◌, ◌++◌, ◌≡◌, refl, sym, ap, arith, length, length-append}
use remote.Crypto.Binding.{PeerRole, controller, host, role_byte, binding_input, binding_domain}

-- Equal lists whose second parts are of equal lengths have equal parts.
append-cancel :
    (xs xs' ys ys' : List ℕ)
    → xs ++ ys ≡ xs' ++ ys'
    → length ys ≡ length ys'
    → (xs ≡ xs') × (ys ≡ ys')
append-cancel [] [] ys ys' e l = (refl, e)
append-cancel [] (x ∷ xs') ys ys' e l =
    let m = ap length e in absurd (omega (arith, m, l, length-append xs' ys'))
append-cancel (x ∷ xs) [] ys ys' e l =
    let m = ap length e in absurd (omega (arith, m, l, length-append xs ys))
append-cancel (x ∷ xs) (x' ∷ xs') ys ys' e l =
    let heads : x ≡ x' = cc in
    let tails : xs ++ ys ≡ xs' ++ ys' = cc in
    let (s, r) = append-cancel xs xs' ys ys' tails l in (ground (arith, heads, s), r)

-- So have those whose first parts are.
append-cancel_left :
    (xs xs' ys ys' : List ℕ)
    → length xs ≡ length xs'
    → xs ++ ys ≡ xs' ++ ys'
    → (xs ≡ xs') × (ys ≡ ys')
append-cancel_left [] [] ys ys' l e = (refl, e)
append-cancel_left [] (x ∷ xs') ys ys' l e = absurd (omega arith)
append-cancel_left (x ∷ xs) [] ys ys' l e = absurd (omega arith)
append-cancel_left (x ∷ xs) (x' ∷ xs') ys ys' l e =
    let heads : x ≡ x' = cc in
    let tails : xs ++ ys ≡ xs' ++ ys' = cc in
    let (s, r) = append-cancel_left xs xs' ys ys' (omega arith) tails in
    (ground (arith, heads, s), r)

role_byte-injective : (a b : PeerRole) → role_byte a ≡ role_byte b → a ≡ b
unfolding role_byte
role_byte-injective controller controller h = refl
role_byte-injective controller host h = absurd (omega arith)
role_byte-injective host controller h = absurd (omega arith)
role_byte-injective host host h = refl

-- What a message binds.
pub record Bound : Type 0 where
  pub session_id : List ℕ
  pub nonce_controller : List ℕ
  pub nonce_host : List ℕ
  pub fp_controller : List ℕ
  pub fp_host : List ℕ
  pub role : PeerRole

abbrev pub input_of : Bound → List ℕ
input_of b =
    binding_input b.session_id b.nonce_controller b.nonce_host b.fp_controller b.fp_host b.role

-- Nonces and fingerprints of 32 bytes.
pub record IsSized (b : Bound) : Type 0 where
  pub nonce_controller : length b.nonce_controller ≡ 32
  pub nonce_host : length b.nonce_host ≡ 32
  pub fp_controller : length b.fp_controller ≡ 32
  pub fp_host : length b.fp_host ≡ 32

-- The parts of a message from each field on.
abbrev fps : Bound → List ℕ
fps b = b.fp_controller ++ (b.fp_host ++ role_byte b.role ∷ [])

abbrev nonces : Bound → List ℕ
nonces b = b.nonce_controller ++ (b.nonce_host ++ fps b)

length-fps : (b : Bound) → IsSized b → length (fps b) ≡ 65
length-fps b s = omega (
  arith,
  length-append b.fp_controller (b.fp_host ++ role_byte b.role ∷ []),
  length-append b.fp_host (role_byte b.role ∷ []),
)

length-nonces : (b : Bound) → IsSized b → length (nonces b) ≡ 129
length-nonces b s = omega (
  arith,
  length-fps b s,
  length-append b.nonce_controller (b.nonce_host ++ fps b),
  length-append b.nonce_host (fps b),
)

-- Two messages are the same bytes only if they bind the same session, nonces, fingerprints and
-- role, whatever the lengths of the sessions' identifiers.
pub binding_input-injective :
    (a b : Bound) → IsSized a → IsSized b → input_of a ≡ input_of b → a ≡ b
unfolding binding_input
binding_input-injective a b sa sb e =
    let nonces_length : length (nonces a) ≡ length (nonces b) =
      length-nonces a sa ∙ sym (length-nonces b sb) in
    let fps_length : length (fps a) ≡ length (fps b) = length-fps a sa ∙ sym (length-fps b sb) in
    let (domain, e0) =
      append-cancel_left (binding_domain ++ 0 ∷ []) (binding_domain ++ 0 ∷ [])
        (a.session_id ++ nonces a) (b.session_id ++ nonces b) refl e in
    let (session, e1) =
      append-cancel a.session_id b.session_id (nonces a) (nonces b) e0 nonces_length in
    let (local_nonce, e2) =
      append-cancel_left _ _ (a.nonce_host ++ fps a) (b.nonce_host ++ fps b)
        (sa.nonce_controller ∙ sym sb.nonce_controller) e1 in
    let (other_nonce, e3) =
      append-cancel_left _ _ (fps a) (fps b) (sa.nonce_host ∙ sym sb.nonce_host) e2 in
    let (fp_controller, e4) =
      append-cancel_left _ _ (a.fp_host ++ role_byte a.role ∷ [])
        (b.fp_host ++ role_byte b.role ∷ []) (sa.fp_controller ∙ sym sb.fp_controller) e3 in
    let (fp_host, e5) =
      append-cancel_left _ _ (role_byte a.role ∷ []) (role_byte b.role ∷ [])
        (sa.fp_host ∙ sym sb.fp_host) e4 in
    let role : a.role ≡ b.role = role_byte-injective a.role b.role (cc) in
    λ i. record {
      session_id = session i;
      nonce_controller = local_nonce i;
      nonce_host = other_nonce i;
      fp_controller = fp_controller i;
      fp_host = fp_host i;
      role = role i;
    }
