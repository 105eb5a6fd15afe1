-- ===== src/Files/Walk.antt =====
-- `filepath.Walk` of Go's library, over the directory tree that it meets. A directory holds its entries
-- in the order of their names; an entry may be gone, and a directory may be unreadable.
use zbplan.Files.{Info, join_path}
use zbplan.Prelude.{
  Bool, true, false, Option, none, some, Bytes, if◌then◌else◌, Bool-cases, inl, inr, ◌≡◌, refl,
}

mutual
  pub data Node : Type 0 where
    gone : Node
    leaf : Info → Node
    directory : (readable : Bool) → Info → Nodes → Node

  pub data Nodes : Type 0 where
    nil : Nodes
    cons : (name : Bytes) → Node → Nodes → Nodes

-- An entry is met at a path, in a tree whose root has a name and a path: the tree holds it there, in
-- directories that can be read.
mutual
  pub data Meets (path name : Bytes) (info : Info) : Bytes → Bytes → Node → Type 0 where
    at_leaf : Meets path name info name path (leaf info)
    at_directory : (ns : Nodes) → Meets path name info name path (directory true info ns)
    inside :
        {top above : Bytes} {ns : Nodes} (i : Info)
        → MeetsIn path name info above ns
        → Meets path name info top above (directory true i ns)

  pub data MeetsIn (path name : Bytes) (info : Info) : Bytes → Nodes → Type 0 where
    first :
        {above part : Bytes} {n : Node} {ns : Nodes}
        → Meets path name info part (join_path above part) n
        → MeetsIn path name info above (cons part n ns)
    later :
        {above part : Bytes} {n : Node} {ns : Nodes}
        → MeetsIn path name info above ns
        → MeetsIn path name info above (cons part n ns)

-- What the function of a walk answers: no error, `SkipDir`, `SkipAll`, or another error.
pub data Answer : Type 0 where
  go_on skip_dir skip_all : Answer
  fail : Bytes → Answer

-- What the function is told of an entry: an error, or its name and what it is.
pub data Seen : Type 0 where
  broken : Seen
  entry : (name : Bytes) → Info → Seen

-- What holds of an entry holds of what the function is told.
abbrev pub IsMet : (Bytes → Bytes → Info → Type 0) → Bytes → Seen → Type 0
IsMet M path broken = Unit
IsMet M path (entry name info) = M path name info

-- Whether the walk goes on with the next entry.
abbrev pub continues : Node → Answer → Bool
continues n go_on = true
continues gone skip_dir = true
continues (leaf i) skip_dir = false
continues (directory r i ns) skip_dir = true
continues n skip_all = false
continues n (fail e) = false

abbrev pub is_go_on : Answer → Bool
is_go_on go_on = true
is_go_on skip_dir = false
is_go_on skip_all = false
is_go_on (fail e) = false

-- The error that `Walk` returns, where there is one.
abbrev pub error_of : Answer → Option Bytes
error_of go_on = none
error_of skip_dir = none
error_of skip_all = none
error_of (fail e) = some e

-- The answers that end the whole walk.
abbrev pub stops : Answer → Bool
stops go_on = false
stops skip_dir = false
stops skip_all = true
stops (fail e) = true

-- What holds behind a call: `Q`, and `P` where the walk goes on.
pub record IsKept {S : Type 0} (P Q : S → Type 0) (r : S × Answer) : Type 0 where
  pub now : Q r.0
  pub goes : stops r.1 ≡ false → P r.0

is_go_on-stops : (a : Answer) → is_go_on a ≡ true → stops a ≡ false
is_go_on-stops go_on h = refl
is_go_on-stops skip_dir h = refl
is_go_on-stops skip_all h = absurd (cc)
is_go_on-stops (fail e) h = absurd (cc)

continues-stops : (n : Node) (a : Answer) → continues n a ≡ true → stops a ≡ false
continues-stops n go_on h = refl
continues-stops n skip_dir h = refl
continues-stops gone skip_all h = absurd (cc)
continues-stops (leaf i) skip_all h = absurd (cc)
continues-stops (directory r i ns) skip_all h = absurd (cc)
continues-stops gone (fail e) h = absurd (cc)
continues-stops (leaf i) (fail e) h = absurd (cc)
continues-stops (directory r i ns) (fail e) h = absurd (cc)

module _ {S : Type 0} (visit : Bytes → Seen → S → S × Answer) where
  unfoldable mutual
    pub walk_node : (name path : Bytes) → Node → S → S × Answer
    walk_node name path gone s = visit path broken s
    walk_node name path (leaf info) s = visit path (entry name info) s
    walk_node name path (directory false info ns) s = visit path broken s
    walk_node name path (directory true info ns) s =
        let (s', a) = visit path (entry name info) s in
        let below = walk_nodes path ns s' in if is_go_on a then below else (s', a)

    pub walk_nodes : (path : Bytes) → Nodes → S → S × Answer
    walk_nodes path nil s = (s, go_on)
    walk_nodes path (cons name n ns) s =
        let (s', a) = walk_node name (join_path path name) n s in
        let rest = walk_nodes path ns s' in if continues n a then rest else (s', a)

  -- Where each call of the function goes on with `P`, the walk does, and it ends with `Q`. A call may rely
  -- on what holds of the entries that are met.
  module _ (P Q : S → Type 0) (ends : (s : S) → P s → Q s) (M : Bytes → Bytes → Info → Type 0)
      (kept : (path : Bytes) (e : Seen) (s : S)
        → IsMet M path e
        → P s
        → IsKept P Q (visit path e s)) where
    mutual
      unfolding walk_node walk_nodes

      walk_node-IsKept :
          (name path : Bytes) (n : Node) (s : S)
          → ((p m : Bytes) (i : Info) → Meets p m i name path n → M p m i)
          → P s
          → IsKept P Q (walk_node name path n s)
      walk_node-IsKept name path gone s f p = kept path broken s tt p
      walk_node-IsKept name path (leaf info) s f p =
          kept path (entry name info) s (f path name info at_leaf) p
      walk_node-IsKept name path (directory false info ns) s f p = kept path broken s tt p
      walk_node-IsKept name path (directory true info ns) s f p =
          let now = kept path (entry name info) s (f path name info (at_directory ns)) p in
          elim (Bool-cases (is_go_on (visit path (entry name info) s).1)) [
            | inl on ↦ rw on (
                walk_nodes-IsKept path ns _ (λ q m i h. f q m i (inside info h))
                  (now.goes (is_go_on-stops _ on)))
            | inr off ↦ rw off now
          ]

      walk_nodes-IsKept :
          (path : Bytes) (ns : Nodes) (s : S)
          → ((p m : Bytes) (i : Info) → MeetsIn p m i path ns → M p m i)
          → P s
          → IsKept P Q (walk_nodes path ns s)
      walk_nodes-IsKept path nil s f p = record { now = ends s p; goes = λ h. p }
      walk_nodes-IsKept path (cons name n ns) s f p =
          let q =
            walk_node-IsKept name (join_path path name) n s (λ p m i h. f p m i (first h)) p in
          elim (Bool-cases (continues n (walk_node name (join_path path name) n s).1)) [
            | inl on ↦ rw on (
                walk_nodes-IsKept path ns _ (λ p m i h. f p m i (later h))
                  (q.goes (continues-stops n _ on)))
            | inr off ↦ rw off q
          ]

  pub walk-IsKept :
      (P Q : S → Type 0) (ends : (s : S) → P s → Q s) (name path : Bytes) (n : Node)
      → ((at : Bytes) (e : Seen) (s : S)
          → IsMet (λ p m i. Meets p m i name path n) at e
          → P s
          → IsKept P Q (visit at e s))
      → (s : S) → P s
      → IsKept P Q (walk_node name path n s)
  walk-IsKept P Q ends name path n kept s p =
      walk_node-IsKept P Q ends (λ p m i. Meets p m i name path n) kept name path n s (λ p m i h. h)
        p
