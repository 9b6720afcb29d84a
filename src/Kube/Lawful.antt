-- ===== src/Kube/Lawful.antt =====
-- What the proofs assume of the packages and of the cluster: documented behaviour, by name.
use agentgateway_educates_op.Base.{ℕ, String, ◌≡◌, true, false, some, List, ok, All, lookup}
use agentgateway_educates_op.Kube.{Packages, Cluster, Answer}
use agentgateway_educates_op.Sdk.Objects.{Custom}

-- controller-runtime's finalizers, and the round trip of base64.
pub record IsLawful (p : Packages) : Type 0 where
  pub contains-add :
      (finalizers : List String) (f : String)
      → p.contains_finalizer (p.add_finalizer finalizers f) f ≡ true
  pub contains-remove :
      (finalizers : List String) (f : String)
      → p.contains_finalizer (p.remove_finalizer finalizers f) f ≡ false
  pub decode-encode : (bytes : List ℕ) → p.base64_decode (p.base64_encode bytes) ≡ some bytes

-- client-go's retry runs the function that it is given and does nothing else, and runs it once if
-- that meets no conflict.
pub record RetriesOnly (c : Cluster) : Type 1 where
  pub retry_keeps :
      (S : Type 0) (P : S → Type 0) (f : S → Answer (Unit {0}) × S)
      → ((s : S) → P s → P (f s).1)
      → (s : S) → P s
      → P (c.retry_on_conflict f s).1
  pub retry_ok :
      (S : Type 0) (f : S → Answer (Unit {0}) × S) (s : S)
      → (f s).0 ≡ ok tt
      → c.retry_on_conflict f s ≡ f s

-- A list with a label selector answers with objects that carry the label.
pub record ListsLabelled (c : Cluster) : Type 0 where
  pub lists :
      (group kind ns label value : String) (w : c.World) (l : List Custom)
      → (c.objects.list_custom group kind ns label value w).0 ≡ ok l
      → All (λ u. lookup label u.labels ≡ some value) l
