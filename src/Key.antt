-- ===== src/Key.antt =====
-- internal/participantkey/key.go: the credential of one attendee, and its hash.
pub mod Laws
use agentgateway_educates_op.Base.{
  ℕ, Bool, true, false, Option, none, some, List, [], ◌∷◌, ◌++◌, Text, codes, length, ◌==◌,
}
use agentgateway_educates_op.Kube.{Packages, Cluster}
use agentgateway_educates_op.Kube.Monad.{Action, State, pure, wrap, ◌>>=◌, random_bytes}

abbrev pub key_prefix : Text
key_prefix = b's' ∷ b'k' ∷ b'-' ∷ []

abbrev pub key_random_bytes : ℕ
key_random_bytes = 32

-- strings.TrimPrefix, with `none` where strings.HasPrefix fails.
abbrev pub strip_prefix : Text → Text → Option Text
strip_prefix [] s = some s
strip_prefix (p ∷ ps) [] = none
strip_prefix (p ∷ ps) (c ∷ s) = elim (p == c) [ true ↦ strip_prefix ps s | false ↦ none ]

module _ (p : Packages) where
  unfoldable pub hash : Text → Text
  hash key = codes "sha256:" ++ p.sha256_hex key

  unfoldable pub generate : (c : Cluster) → Action (State c) Text
  generate c = do
    buf ← wrap (codes "generate participant key: ") (random_bytes c key_random_bytes)
    pure (key_prefix ++ p.base64_encode buf)

  abbrev decodes : Option (List ℕ) → Bool
  decodes none = false
  decodes (some bytes) = length bytes == key_random_bytes

  abbrev decodes_tail : Option Text → Bool
  decodes_tail none = false
  decodes_tail (some encoded) = decodes (p.base64_decode encoded)

  unfoldable pub is_participant_key : Text → Bool
  is_participant_key key = decodes_tail (strip_prefix key_prefix key)
