-- ===== src/Key/Laws.antt =====
-- A generated key passes the check for keys.
use agentgateway_educates_op.Base.{ℕ, ◌≡◌, refl, true, List, Text, ok, length, ◌++◌}
use agentgateway_educates_op.Kube.{Packages, Cluster}
use agentgateway_educates_op.Kube.Lawful.{IsLawful}
use agentgateway_educates_op.Kube.Monad.{State, ◌>>=◌, random_bytes}
use agentgateway_educates_op.Key.{generate, is_participant_key, key_random_bytes, key_prefix}

-- Where the source of randomness gives as many bytes as it is asked for, a key is generated, and
-- it passes the check for participant keys.
pub generate-is_participant_key :
    (p : Packages) (c : Cluster) (st : State c) (bytes : List ℕ) (w : c.World)
    → IsLawful p
    → c.random_bytes key_random_bytes st.world ≡ (ok bytes, w)
    → length bytes ≡ key_random_bytes
    → (key : Text) × ((generate p c st).0 ≡ ok key) × (is_participant_key p key ≡ true)
unfolding generate ◌>>=◌ random_bytes is_participant_key
generate-is_participant_key p c st bytes w law got full =
    (key_prefix ++ p.base64_encode bytes, rw got refl, rw (law.decode-encode bytes, full) refl)
