-- ===== src/Policy.antt =====
-- pkg/builder/policy.go: the bound on a Dockerfile's instructions, and the source policy of a solve.
-- BuildKit's parser is a parameter: the instructions that it reads, or its error.
pub mod Count
pub mod Allow
use zbplan.Prelude.{
  ℕ, zero, suc, ◌+◌, ◌*◌, Bool, List, [], ◌∷◌, ◌++◌, map, Bytes, codes, length, ltb, if◌then◌else◌,
  Result, ok, err, map_err, ◌>>=◌, ◌>>◌, reject_if,
}
use zbplan.Registry.{RegistryOps, AllowlistError, normalize_allowed_registries}

abbrev pub max_dockerfile_bytes : ℕ
max_dockerfile_bytes = 256 * 1024

abbrev pub max_dockerfile_instructions : ℕ
max_dockerfile_instructions = 256

-- `parser.Node`, by its fields `Children` and `Next`.
mutual
  pub data Node : Type 0 where
    node : Nodes → Next → Node

  pub data Nodes : Type 0 where
    nil : Nodes
    cons : Node → Nodes → Nodes

  -- An argument with its own children, and the arguments behind it.
  pub data Next : Type 0 where
    end : Next
    argument : Nodes → Next → Next

pub data DockerfileError : Type 0 where
  too_long : ℕ → DockerfileError
  parse_error : Bytes → DockerfileError
  no_instructions : DockerfileError
  too_many_instructions : DockerfileError

-- `countDockerfileInstructions`, where `*count` is passed in and returned.
unfoldable mutual
  pub count_node : Node → ℕ → Result DockerfileError ℕ
  count_node (node children next) count = do
    reject_if (ltb max_dockerfile_instructions (count + 1)) too_many_instructions
    count' ← count_nodes children (count + 1)
    count_next next count'

  -- The loop over `instruction.Children`.
  pub count_nodes : Nodes → ℕ → Result DockerfileError ℕ
  count_nodes nil count = ok count
  count_nodes (cons child children) count = do
    count' ← count_node child count
    count_nodes children count'

  -- The loop over `instruction.Next`.
  pub count_next : Next → ℕ → Result DockerfileError ℕ
  count_next end count = ok count
  count_next (argument children next) count = do
    count' ← count_nodes children count
    count_next next count'

pub reject_none : Nodes → Result DockerfileError (Unit {0})
reject_none nil = err no_instructions
reject_none (cons _ _) = ok tt

unfoldable pub validate_dockerfile :
    (Bytes → Result Bytes Nodes) → Bytes → Result DockerfileError (Unit {0})
unfolding reject_none
validate_dockerfile parse dockerfile = do
  reject_if (ltb max_dockerfile_bytes (length dockerfile)) (too_long (length dockerfile))
  children ← map_err parse_error (parse dockerfile)
  reject_none children
  count ← count_nodes children 0
  ok tt

pub data Action : Type 0 where
  allow deny : Action

pub data MatchType : Type 0 where
  wildcard exact : MatchType

pub record Rule : Type 0 where
  pub action : Action
  pub identifier : Bytes
  pub match_type : MatchType

-- `buildLocalSources`
abbrev pub build_local_sources : List Bytes
build_local_sources = codes "context" ∷ codes "dockerfile" ∷ []

pub local_rule : Bytes → Rule
local_rule name = record {
  action = allow;
  identifier = codes "local://" ++ name;
  match_type = exact;
}

pub registry_rule : Bytes → Rule
registry_rule registry = record {
  action = allow;
  identifier = codes "docker-image://" ++ (registry ++ codes "/*");
  match_type = wildcard;
}

-- A selector whose match type is not set is a wildcard.
pub deny_rule : Rule
deny_rule = record { action = deny; identifier = codes "*"; match_type = wildcard }

pub source_rules : List Bytes → List Rule
source_rules registries =
    deny_rule ∷ (map local_rule build_local_sources ++ map registry_rule registries)

unfoldable pub source_policy : RegistryOps → List Bytes → Result AllowlistError (List Rule)
source_policy ops allowed = do
  registries ← normalize_allowed_registries ops allowed
  ok (source_rules registries)
