-- ===== src/Dma/Subsume/Pass.antt =====
-- AMDAIEDmaLoopSubsumption.cpp: `matchAndRewrite` and what it does for `scf.for` and `scf.forall`.
-- What MLIR knows of the operation's place in the program is a record of its own.
use iree_amd_aie.Prelude.{
  ℕ, Bool, true, false, not, ◌&&◌, ◌||◌, Option, none, some, List, [], ◌∷◌, ◌++◌, ◌==◌, reverse,
  if◌then◌else◌, mem, all_of,
}
use iree_amd_aie.Dma.Pattern.{
  Result, ok, failure, fault, ◌>>=◌, OpFoldResult, get_constant_int_value, Pattern,
}
use iree_amd_aie.Dma.Limits.{DmaDimConfig, DeviceProps, init}
use iree_amd_aie.Dma.Subsume.{
  Loop, Definitions, Kind, npu_dma_cpy_nd, npu_circular_dma_cpy_nd, is_circular, StridedOp, Options,
  rewrite_with_loop_like_op_parent,
}

-- One induction variable with its bounds and the results of its `affine.apply` users.
pub record LoopOp : Type 0 where
  pub lower_bound : OpFoldResult
  pub upper_bound : OpFoldResult
  pub step : OpFoldResult
  pub induction_var : ℕ
  pub apply_results : List ℕ

pub data Parent : Type 0 where
  for_op : LoopOp → Parent
  forall_op : List LoopOp → Parent
  other_loop not_a_loop no_parent : Parent

-- A strided operation of the parent block, as far as the analysis of users looks at it: the
-- connection that it works on, whether it lies in the parent, and whether an ancestor of it is in
-- the block of the operation.
pub record User : Type 0 where
  pub id : ℕ
  pub connection : ℕ
  pub in_parent : Bool
  pub in_block : Bool
  pub circular : Bool

pub record Place : Type 0 where
  pub id : ℕ
  pub kind : Kind
  pub parent : Parent
  pub source_memory_space : Option ℕ
  pub target_memory_space : Option ℕ
  pub connection : Option ℕ
  pub users : List User
  pub operands : List ℕ
  pub defined_in_parent : ℕ → Bool

-- The constant bounds, where they are.
unfoldable pub loop_of : LoopOp → Option Loop
loop_of l = elim (get_constant_int_value l.lower_bound) [
  | none ↦ none
  | some lb ↦ elim (get_constant_int_value l.upper_bound) [
    | none ↦ none
    | some ub ↦ elim (get_constant_int_value l.step) [
      | none ↦ none
      | some s ↦ some (record {
        lower_bound = lb;
        upper_bound = ub;
        step = s;
        induction_values = l.induction_var ∷ l.apply_results;
      })
    ]
  ]
]

unfoldable pub loops_of : List LoopOp → Option (List Loop)
loops_of [] = some []
loops_of (l ∷ ls) = elim (loop_of l) [
  | none ↦ none
  | some m ↦ elim (loops_of ls) [ none ↦ none | some ms ↦ some (m ∷ ms) ]
]

abbrev pub all_induction_values : List LoopOp → List ℕ
all_induction_values [] = []
all_induction_values (l ∷ ls) = (l.induction_var ∷ l.apply_results) ++ all_induction_values ls

-- An operand that the parent defines, other than by its induction variables.
unfoldable pub has_operand_in_scope : Place → List ℕ → Bool
has_operand_in_scope place ivs =
    not (all_of (λ v. mem v ivs || not (place.defined_in_parent v)) place.operands)

unfoldable pub rewrite_with_loops :
    Options → Definitions → Place → StridedOp → List LoopOp → Result StridedOp
rewrite_with_loops opts definitions place op ls = elim (loops_of ls) [
  | none ↦ failure
  | some loops ↦
      if has_operand_in_scope place (all_induction_values ls)
      then failure
      else rewrite_with_loop_like_op_parent opts definitions op loops
]

-- `rewriteWithForOpParent` and `rewriteWithForallOpParent`.
unfoldable pub rewrite_in_parent : Options → Definitions → Place → StridedOp → Result StridedOp
rewrite_in_parent opts definitions place op = elim place.parent [
  | for_op l ↦ rewrite_with_loops opts definitions place op (l ∷ [])
  | forall_op ls ↦ rewrite_with_loops opts definitions place op ls
  | _ ↦ failure
]

abbrev pub is_loop : Parent → Bool
is_loop (for_op l) = true
is_loop (forall_op ls) = true
is_loop other_loop = true
is_loop not_a_loop = false
is_loop no_parent = false

-- The users of a connection, in the order of the walk.
abbrev pub connection_users : ℕ → List User → List User
connection_users c [] = []
connection_users c (u ∷ users) =
    if u.connection == c then u ∷ connection_users c users else connection_users c users

unfoldable pub has_other_users_in_same_scope : ℕ → List User → Bool
has_other_users_in_same_scope id users = not (all_of (λ u. (u.id == id) || not u.in_parent) users)

-- The loop over the users from the last to the first; `current` is `currentCircularDma`.
unfoldable pub has_blocking_user : ℕ → Bool → List User → Bool
has_blocking_user id current [] = false
has_blocking_user id current (u ∷ users) =
    if u.id == id
    then has_blocking_user id true users
    else if u.in_block && (current || u.circular)
    then true
    else has_blocking_user id current users

unfoldable pub does_circular_dma_have_users_blocking_subsumption : Place → Option Bool
does_circular_dma_have_users_blocking_subsumption place = elim place.connection [
  | none ↦ none
  | some c ↦ some (has_blocking_user place.id false (reverse (connection_users c place.users)))
]

-- Whether the users of the connection allow the rewrite.
unfoldable pub users_allow : Place → Bool
users_allow place = elim place.kind [
  | npu_dma_cpy_nd ↦ elim place.connection [
    | none ↦ false
    | some c ↦ not (has_other_users_in_same_scope place.id (connection_users c place.users))
  ]
  | npu_circular_dma_cpy_nd ↦ elim (does_circular_dma_have_users_blocking_subsumption place) [
    | none ↦ false
    | some blocked ↦ not blocked
  ]
]

-- The limits of one side, whose memory space the constructor asserts to be known.
abbrev pub config_of : Kind → DeviceProps → Option ℕ → Result DmaDimConfig
config_of kind device none = failure
config_of kind device (some space) = elim (init (is_circular kind) device space) [
  | none ↦ fault
  | some c ↦ ok c
]

-- Both memory spaces are asked for before either limit is made.
abbrev pub has_memory_spaces : Place → Bool
has_memory_spaces place = elim place.source_memory_space [
  | none ↦ false
  | some s ↦ elim place.target_memory_space [ none ↦ false | some t ↦ true ]
]

unfoldable pub match_and_rewrite :
    Options → DeviceProps → Definitions → Place → Pattern → Pattern → Result StridedOp
match_and_rewrite opts device definitions place source target =
    if not (is_loop place.parent && has_memory_spaces place && users_allow place)
    then failure
    else (config_of place.kind device place.source_memory_space >>= λ s.
        config_of place.kind device place.target_memory_space >>= λ t.
        rewrite_in_parent opts definitions place (record {
          kind = place.kind;
          source = source;
          target = target;
          source_config = s;
          target_config = t;
        }))
