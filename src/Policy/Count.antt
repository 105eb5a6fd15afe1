-- ===== src/Policy/Count.antt =====
-- The bound on the instructions is exact: triggers and nested instructions are counted once each.
use zbplan.Prelude.{
  ℕ, ◌+◌, ◌≤◌, ◌≡◌, ◌↔◌, ◌⊎◌, ◌≢◌, refl, ap, ◌∙◌, true, false, Bytes, length, leb, ltb, arith,
  if◌then◌else◌, Result, ok, err, map_err, ◌>>=◌, ◌>>◌, Bool-cases, inl, inr,
}
use mathlib.Core.Path.{subst}
use zbplan.Policy.{
  Node, node, Nodes, nil, cons, Next, end, argument, DockerfileError, too_many_instructions,
  count_node, count_nodes, count_next, parse_error, reject_none, validate_dockerfile,
  max_dockerfile_instructions, max_dockerfile_bytes,
}

-- The instructions of a tree, with those of the arguments.
mutual
  pub total_node : Node → ℕ
  total_node (node children next) = 1 + total_nodes children + total_next next

  pub total_nodes : Nodes → ℕ
  total_nodes nil = 0
  total_nodes (cons child children) = total_node child + total_nodes children

  pub total_next : Next → ℕ
  total_next end = 0
  total_next (argument children next) = total_nodes children + total_next next

-- The count where it is within the bound, and else the error.
abbrev within : ℕ → Result DockerfileError ℕ
within n = if leb n max_dockerfile_instructions then ok n else err too_many_instructions

within-bind :
    (a b : ℕ) (f : ℕ → Result DockerfileError ℕ)
    → (a ≤ max_dockerfile_instructions → f a ≡ within (a + b))
    → (within a >>= f) ≡ within (a + b)
within-bind a b f h = elim (Bool-cases (leb a max_dockerfile_instructions)) [
  | inl le ↦ rw le (h (ground arith))
  | inr gt ↦
      let e : leb (a + b) max_dockerfile_instructions ≡ false = ground arith in rw (gt, e) refl
]

mutual
  unfolding count_node total_node

  count_node-total :
      (x : Node) (n : ℕ)
      → n ≤ max_dockerfile_instructions
      → count_node x n ≡ within (n + total_node x)
  count_node-total (node children next) n h =
      elim (Bool-cases (ltb max_dockerfile_instructions (n + 1))) [
        | inl over ↦
            let e : leb (n + (1 + total_nodes children + total_next next))
                  max_dockerfile_instructions
                ≡ false =
              ground arith in
            rw (over, e) refl
        | inr fits ↦
            let first = count_nodes-total children (n + 1) (ground arith) in
            let e : n + (1 + total_nodes children + total_next next)
                ≡ n + 1 + total_nodes children + total_next next =
              omega arith in
            rw (fits, first, e)
              (within-bind (n + 1 + total_nodes children) (total_next next) (count_next next)
                (count_next-total next (n + 1 + total_nodes children)))
      ]

  count_nodes-total :
      (xs : Nodes) (n : ℕ)
      → n ≤ max_dockerfile_instructions
      → count_nodes xs n ≡ within (n + total_nodes xs)
  count_nodes-total nil n h = ground arith
  count_nodes-total (cons x xs) n h =
      let first = count_node-total x n h in
      let e : n + (total_node x + total_nodes xs) ≡ n + total_node x + total_nodes xs =
        omega arith in
      rw (first, e)
        (within-bind (n + total_node x) (total_nodes xs) (count_nodes xs)
          (count_nodes-total xs (n + total_node x)))

  count_next-total :
      (x : Next) (n : ℕ)
      → n ≤ max_dockerfile_instructions
      → count_next x n ≡ within (n + total_next x)
  count_next-total end n h = ground arith
  count_next-total (argument xs x) n h =
      let first = count_nodes-total xs n h in
      let e : n + (total_nodes xs + total_next x) ≡ n + total_nodes xs + total_next x =
        omega arith in
      rw (first, e)
        (within-bind (n + total_nodes xs) (total_next x) (count_next x)
          (count_next-total x (n + total_nodes xs)))

within-ok : (n m : ℕ) → within n ≡ ok m → n ≤ max_dockerfile_instructions
within-ok n m h = ground arith

abbrev passed : Result DockerfileError (Unit {0})
passed = ok tt

counted :
    (xs : Nodes)
    → ((count_nodes xs 0 >>= λ count. ok tt) ≡ passed)
      ↔ (total_nodes xs ≤ max_dockerfile_instructions)
counted xs =
    let e : 0 + total_nodes xs ≡ total_nodes xs = omega arith in
    let total : count_nodes xs 0 ≡ within (total_nodes xs) =
      count_nodes-total xs 0 (omega arith) ∙ ap within e in
    rw total (go (Bool-cases (leb (total_nodes xs) max_dockerfile_instructions)))
  where
    go :
        (leb (total_nodes xs) max_dockerfile_instructions ≡ true)
          ⊎ (leb (total_nodes xs) max_dockerfile_instructions ≡ false)
        → ((within (total_nodes xs) >>= λ count. passed) ≡ passed)
          ↔ (total_nodes xs ≤ max_dockerfile_instructions)
    go (inl le) = rw le (λ _. ground arith, λ _. refl)
    go (inr gt) = rw gt (λ h. absurd (cc), λ h. absurd (ground arith))

-- What is left to check of the instructions that were read.
checked :
    (m : Result Bytes Nodes) (xs : Nodes)
    → m ≡ ok xs
    → ((map_err parse_error m >>= λ children.
          reject_none children >> (count_nodes children 0 >>= λ count. ok tt))
        ≡ passed)
      ↔ ((xs ≢ nil) × (total_nodes xs ≤ max_dockerfile_instructions))
unfolding reject_none
checked m nil e = rw e (λ h. absurd (cc), λ p. absurd (p.0 refl))
checked m (cons x xs) e = let c = counted (cons x xs) in rw e (λ h. (λ z. cc, c.0 h), λ p. c.1 p.1)

-- A Dockerfile passes exactly if it has at most 256 KiB, BuildKit parses it, and it has between one
-- and 256 instructions, where those inside others and the triggers of ONBUILD count too.
pub validate_dockerfile_iff :
    (parse : Bytes → Result Bytes Nodes) (dockerfile : Bytes)
    → (validate_dockerfile parse dockerfile ≡ ok tt) ↔ (
        (length dockerfile ≤ max_dockerfile_bytes)
        × ((xs : Nodes) × (parse dockerfile ≡ ok xs)
            × (xs ≢ nil)
            × (total_nodes xs ≤ max_dockerfile_instructions)))
unfolding validate_dockerfile
validate_dockerfile_iff parse dockerfile =
    go (parse dockerfile) refl (Bool-cases (ltb max_dockerfile_bytes (length dockerfile)))
  where
    go :
        (m : Result Bytes Nodes)
        → parse dockerfile ≡ m
        → (ltb max_dockerfile_bytes (length dockerfile) ≡ true)
          ⊎ (ltb max_dockerfile_bytes (length dockerfile) ≡ false)
        → (validate_dockerfile parse dockerfile ≡ ok tt) ↔ (
            (length dockerfile ≤ max_dockerfile_bytes)
            × ((xs : Nodes) × (parse dockerfile ≡ ok xs)
                × (xs ≢ nil)
                × (total_nodes xs ≤ max_dockerfile_instructions)))
    go m e (inl long) =
        rw (long, validate_dockerfile) (λ h. absurd (cc), λ p. absurd (ground arith))
    go (err w) e (inr fits) =
        rw (fits, e, validate_dockerfile) (λ h. absurd (cc), λ p. absurd (cc (p.1.1)))
    go (ok xs) e (inr fits) =
        let c = checked (parse dockerfile) xs e in
        rw (fits, validate_dockerfile)
          (
            λ h. (ground arith, (xs, e, (c.0 h).0, (c.0 h).1)),
            λ (fits', (ys, e', nonempty, few)).
                let same : ys ≡ xs = cc (e, e') in
                c.1 (
                  subst (λ zs. zs ≢ nil) same nonempty,
                  subst (λ zs. total_nodes zs ≤ max_dockerfile_instructions) same few,
                ),
          )
