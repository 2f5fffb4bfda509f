-- ===== src/Ninfod/Grouped.antt =====
-- The group of the node and the answers to queries.
use baseliner_docker.Base.{
  ℕ, ◌<◌, Bool, true, false, not, ◌&&◌, ◌||◌, List, [], ◌∷◌, length, Option, none, some, ◌≡◌, refl,
  inl, ◌⊎◌,
}
use baseliner_docker.Ninfod.Compare.{same_bytes}
use baseliner_docker.Ninfod.Encode.{Labels, unfinished, Encoded, encode_dnsname}
use baseliner_docker.Ninfod.Node.{
  Call, join_group, leave_group, Node, nodeinfo_group, bytes_of, encoded_name, start,
}

abbrev Ended : Labels → Type 0
Ended unfinished = ⊥
Ended _ = Unit

abbrev Returns : Encoded → Type 0
Returns e = (n : List ℕ) × (bytes_of e ≡ some n)

-- Whether the socket is a member of a group after these calls, the last one first. A call that fails
-- changes nothing.
abbrev member : List ℕ → List Call → Bool
member h [] = false
member h (join_group g ok ∷ calls) = (ok && same_bytes h g) || member h calls
member h (leave_group g ok ∷ calls) = not (ok && same_bytes h g) && member h calls

-- Whether a call to leave a group has failed.
abbrev given_up : List ℕ → List Call → Bool
given_up h [] = false
given_up h (join_group g ok ∷ calls) = given_up h calls
given_up h (leave_group g ok ∷ calls) = (not ok && same_bytes h g) || given_up h calls

-- The groups joined: the one given, if any, and such as could not be left.
abbrev Holds : Option (List ℕ) → List Call → Type 0
Holds none calls = (h : List ℕ) → member h calls ≡ true → given_up h calls ≡ true
Holds (some g) calls =
    (member g calls ≡ true)
    × ((h : List ℕ) → member h calls ≡ true → (same_bytes h g || given_up h calls) ≡ true)

-- A group is joined while no other is held than such as could not be left, and only a member leaves.
abbrev Orderly : List Call → Type 0
Orderly [] = Unit
Orderly (join_group g ok ∷ calls) = Holds none calls × Orderly calls
Orderly (leave_group g ok ∷ calls) = (member g calls ≡ true) × Orderly calls

abbrev Named : (List ℕ → List ℕ) → Node → Type 0
Named md5 node =
    (node.nigroup ≡ none)
    ⊎ ((0 < length node.nodename) × (node.nigroup ≡ some (nodeinfo_group md5 node.nodename)))

pub record Tuned (md5 : List ℕ → List ℕ) (node : Node) : Type 0 where
  orderly : Orderly node.calls
  group_held : Holds node.nigroup node.calls
  encoded : encoded_name node.utsname ≡ some node.nodename
  named : Named md5 node

pub start-Tuned : (md5 : List ℕ → List ℕ) → Tuned md5 start
unfolding encoded_name encode_dnsname
start-Tuned md5 = record { orderly = tt; group_held = λ h m. m; encoded = refl; named = inl refl }
