-- ===== src/Proto/Caps.antt =====
-- crates/rda-proto/src/caps.rs, `SessionCaps`: what the host grants a session.
use text.Mathlib.Text.{◌==◌ as str_eq}
use remote.Prelude.{
  ◌↔◌, ◌≡◌, List, [], ◌∷◌, ◌++◌, Bool, true, false, ◌&&◌, String, if◌then◌else◌, arith,
}

pub record SessionCaps : Type 0 where
  pub view : Bool
  pub input : Bool
  pub clipboard : Bool
  pub file : Bool
  pub audio : Bool

abbrev pub no_caps : SessionCaps
no_caps = record { view = false; input = false; clipboard = false; file = false; audio = false }

abbrev pub view_only : SessionCaps
view_only = record no_caps { view = true }

-- One round of the loop of `from_names`.
set_name : SessionCaps → String → SessionCaps
set_name c n =
    if str_eq n "view"
    then record c { view = true }
    else if str_eq n "input"
    then record c { input = true }
    else if str_eq n "clipboard"
    then record c { clipboard = true }
    else if str_eq n "file"
    then record c { file = true }
    else if str_eq n "audio"
    then record c { audio = true }
    else c

set_names : SessionCaps → List String → SessionCaps
set_names c [] = c
set_names c (n ∷ ns) = set_names (set_name c n) ns

unfoldable pub from_names : List String → SessionCaps
unfolding set_names set_name
from_names names = set_names no_caps names

abbrev push_if : Bool → String → List String
push_if b n = if b then n ∷ [] else []

unfoldable pub to_names : SessionCaps → List String
to_names c =
    push_if c.view "view"
    ++ (push_if c.input "input"
        ++ (push_if c.clipboard "clipboard" ++ (push_if c.file "file" ++ push_if c.audio "audio")))

unfoldable pub clamp_to : SessionCaps → SessionCaps → SessionCaps
clamp_to self granted = record {
  view = self.view && granted.view;
  input = self.input && granted.input;
  clipboard = self.clipboard && granted.clipboard;
  file = self.file && granted.file;
  audio = self.audio && granted.audio;
}

-- `a` allows nothing that `b` does not.
pub record IsWithin (a b : SessionCaps) : Type 0 where
  pub view : a.view ≡ true → b.view ≡ true
  pub input : a.input ≡ true → b.input ≡ true
  pub clipboard : a.clipboard ≡ true → b.clipboard ≡ true
  pub file : a.file ≡ true → b.file ≡ true
  pub audio : a.audio ≡ true → b.audio ≡ true

abbrev caps : Bool → Bool → Bool → Bool → Bool → SessionCaps
caps v i c f a = record { view = v; input = i; clipboard = c; file = f; audio = a }

named : (v i c f a : Bool) → from_names (to_names (caps v i c f a)) ≡ caps v i c f a
unfolding from_names to_names
named v i c f a = ground arith

-- The wire names of a capability set are read back as that set.
pub from_names-to_names : (c : SessionCaps) → from_names (to_names c) ≡ c
from_names-to_names c = named c.view c.input c.clipboard c.file c.audio

-- Clamping is the greatest lower bound: a set is within the clamped one exactly when it is within
-- the request and within the grant.
pub clamp_to_greatest :
    (a b c : SessionCaps) → IsWithin c (clamp_to a b) ↔ (IsWithin c a × IsWithin c b)
unfolding clamp_to
clamp_to_greatest a b c = (λ h. (ground arith, ground arith), λ h. ground arith)
