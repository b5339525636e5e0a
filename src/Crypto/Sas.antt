-- ===== src/Crypto/Sas.antt =====
-- crates/rda-crypto/src/sas.rs: the short authentication string.
use remote.Prelude.{ℕ, List, [], ◌∷◌, Option, none, some, String, get_elem?}
use remote.Prelude.Bytes.{codes}
use remote.Crypto.Primitives.{Primitives}

abbrev pub sas_words : ℕ
sas_words = 4

unfoldable pub word_list : List String
word_list =
    "acid" ∷ "acorn" ∷ "actor" ∷ "adobe" ∷ "agent" ∷ "aisle" ∷ "album" ∷ "alien" ∷ "alarm" ∷ "algae"
    ∷ "amber" ∷ "amigo" ∷ "anvil" ∷ "apple" ∷ "april" ∷ "arena" ∷ "armor" ∷ "arrow" ∷ "aspen"
    ∷ "atlas" ∷ "audio" ∷ "aunt" ∷ "avoid" ∷ "axis" ∷ "bacon" ∷ "badge" ∷ "bagel" ∷ "baker"
    ∷ "balsa" ∷ "banjo" ∷ "barge" ∷ "basil" ∷ "baton" ∷ "beach" ∷ "beard" ∷ "beast" ∷ "bench"
    ∷ "berry" ∷ "bison" ∷ "black" ∷ "blade" ∷ "blaze" ∷ "blend" ∷ "blimp" ∷ "blood" ∷ "board"
    ∷ "bonus" ∷ "boost" ∷ "botany" ∷ "bowl" ∷ "brain" ∷ "brave" ∷ "bread" ∷ "brick" ∷ "bride"
    ∷ "brief" ∷ "bring" ∷ "brisk" ∷ "broad" ∷ "brook" ∷ "brush" ∷ "bugle" ∷ "bunch" ∷ "cabin"
    ∷ "cable" ∷ "cache" ∷ "cadet" ∷ "camel" ∷ "canal" ∷ "candy" ∷ "canoe" ∷ "canon" ∷ "cargo"
    ∷ "carve" ∷ "catch" ∷ "cedar" ∷ "chalk" ∷ "charm" ∷ "chase" ∷ "cheek" ∷ "chess" ∷ "chief"
    ∷ "chime" ∷ "choir" ∷ "cider" ∷ "cigar" ∷ "civic" ∷ "claim" ∷ "clamp" ∷ "clash" ∷ "clean"
    ∷ "clerk" ∷ "cliff" ∷ "climb" ∷ "cloak" ∷ "clock" ∷ "clone" ∷ "cloud" ∷ "clove" ∷ "clown"
    ∷ "coach" ∷ "cobra" ∷ "cocoa" ∷ "comet" ∷ "comic" ∷ "coral" ∷ "couch" ∷ "cough" ∷ "coral2"
    ∷ "cover" ∷ "crane" ∷ "crate" ∷ "crawl" ∷ "cream" ∷ "creek" ∷ "crest" ∷ "crisp" ∷ "crown"
    ∷ "crumb" ∷ "crush" ∷ "curve" ∷ "cycle" ∷ "daily" ∷ "dance" ∷ "dandy" ∷ "dealt" ∷ "debit"
    ∷ "debug" ∷ "decal" ∷ "decay" ∷ "decoy" ∷ "delta" ∷ "dense" ∷ "depth" ∷ "derby" ∷ "diary"
    ∷ "diner" ∷ "dingo" ∷ "ditch" ∷ "diver" ∷ "dizzy" ∷ "dodge" ∷ "donor" ∷ "donut" ∷ "dough"
    ∷ "dozen" ∷ "draft" ∷ "drain" ∷ "drama" ∷ "dress" ∷ "drift" ∷ "drill" ∷ "drink" ∷ "drive"
    ∷ "drove" ∷ "drums" ∷ "eagle" ∷ "early" ∷ "earth" ∷ "easel" ∷ "ebony" ∷ "edict" ∷ "eight"
    ∷ "elbow" ∷ "elder" ∷ "elite" ∷ "elope" ∷ "ember" ∷ "emery" ∷ "empty" ∷ "enemy" ∷ "enjoy"
    ∷ "entry" ∷ "envoy" ∷ "equal" ∷ "erase" ∷ "essay" ∷ "ether" ∷ "event" ∷ "every" ∷ "exact"
    ∷ "exile" ∷ "exist" ∷ "extra" ∷ "fable" ∷ "facet" ∷ "faint" ∷ "fairy" ∷ "false" ∷ "fancy"
    ∷ "fault" ∷ "favor" ∷ "feast" ∷ "fence" ∷ "ferry" ∷ "fever" ∷ "fiber" ∷ "field" ∷ "fiery"
    ∷ "fifty" ∷ "final" ∷ "finch" ∷ "first" ∷ "flair" ∷ "flame" ∷ "flash" ∷ "fleet" ∷ "flint"
    ∷ "float" ∷ "flock" ∷ "flood" ∷ "floor" ∷ "flour" ∷ "fluid" ∷ "flute" ∷ "focal" ∷ "focus"
    ∷ "foggy" ∷ "forge" ∷ "forty" ∷ "found" ∷ "frame" ∷ "fraud" ∷ "fresh" ∷ "fried" ∷ "frost"
    ∷ "frown" ∷ "fruit" ∷ "fudge" ∷ "fully" ∷ "funny" ∷ "gauge" ∷ "gecko" ∷ "genre" ∷ "ghost"
    ∷ "giant" ∷ "given" ∷ "glade" ∷ "gland" ∷ "glass" ∷ "glaze" ∷ "gleam" ∷ "globe" ∷ "gloss"
    ∷ "glove" ∷ "going" ∷ "gourd" ∷ "grace" ∷ "grade" ∷ "grain" ∷ "grand" ∷ "grape" ∷ "graph"
    ∷ "grasp" ∷ "grass" ∷ "grave" ∷ []

-- `WORDLIST[b]` for each byte; none is the panic of an index out of bounds.
unfoldable pub words_of : List ℕ → Option (List String)
words_of [] = some []
words_of (b ∷ bs) =
    let rest = words_of bs in
    elim (get_elem? word_list b) [
      | none ↦ none
      | some w ↦ elim rest [ none ↦ none | some ws ↦ some (w ∷ ws) ]
    ]

unfoldable pub short_authentication_string : Primitives → List ℕ → List ℕ → Option (List String)
unfolding words_of
short_authentication_string c transcript_hash session_id =
    words_of (c.hkdf session_id transcript_hash (codes "RDA-v1-sas") sas_words)
