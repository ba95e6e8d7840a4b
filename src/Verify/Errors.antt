-- ===== src/Verify/Errors.antt =====
-- What the verifier reports (`VerifyError`, src/error.rs). A text that the source formats is the
-- value that it is formatted from: a type's name is the type's id, a reason is a `Reason`. The errors that
-- only the type checks raise carry the texts themselves.
use astronomy.Prelude.{ℕ, Option}
use astronomy.Ir.Types.{TypeId}
use astronomy.Ir.Functions.{BlockId}
use astronomy.Ir.Modules.{Name}

-- Where a definition was found (`DefSite`, src/verify/ssa.rs).
pub data DefSite : Type 0 where
  function_param : (index : ℕ) → DefSite
  block_param : (block index : ℕ) → DefSite
  inst : (block index : ℕ) → DefSite

pub data Reason : Type 0 where
  -- src/verify/ssa.rs
  arena_too_small : (values params : ℕ) → Reason
  not_own_index : (param value : ℕ) → Reason
  no_such_param : (index params : ℕ) → Reason
  not_registered : Reason
  param_type_disagrees : Reason
  block_param_elsewhere : (index : ℕ) (block : BlockId) → Reason
  block_param_type_disagrees : Reason
  result_elsewhere : (index : ℕ) (block : BlockId) → Reason
  -- src/verify/mod.rs
  not_external : Reason
  param_not_first_class : (index : ℕ) (ty : TypeId) → Reason
  result_not_first_class : (ty : TypeId) → Reason
  block_param_not_first_class : (block index : ℕ) (ty : TypeId) → Reason

-- What a return was expected to give, or gave: a type, no value, or a value of no known type.
pub data Returned : Type 0 where
  void unknown : Returned
  a_value_of : (ty : Option TypeId) → Returned
  of_type : (ty : TypeId) → Returned

pub data VerifyError : Type 0 where
  unknown_value : (function : Name) (value : ℕ) → VerifyError
  unknown_block : (function : Name) (block : ℕ) → VerifyError
  unknown_function : (function : Name) (callee : ℕ) → VerifyError
  unknown_constant : (constant : ℕ) → VerifyError
  unknown_type : (ty : ℕ) → VerifyError
  type_mismatch : (function context expected found : Name) → VerifyError
  invalid_operand_type : (function reason : Name) → VerifyError
  invalid_result_type : (function expected found : Name) → VerifyError
  condition_not_i1 : (function : Name) (found : TypeId) → VerifyError
  value_redefined : (function : Name) (value : ℕ) (first second : DefSite) → VerifyError
  undefined_value : (function : Name) (value : ℕ) → VerifyError
  inconsistent_definition : (function : Name) (value : ℕ) (reason : Reason) → VerifyError
  use_not_dominated : (function : Name) (value use_block def_block : ℕ) → VerifyError
  missing_terminator : (function : Name) (block : ℕ) → VerifyError
  entry_block_with_params : (function : Name) (count : ℕ) → VerifyError
  block_arg_count_mismatch :
      (function : Name) (from_block to_block expected found : ℕ) → VerifyError
  block_arg_type_mismatch :
      (function : Name) (from_block to_block index : ℕ) (expected found : TypeId) → VerifyError
  return_mismatch : (function : Name) (expected found : Returned) → VerifyError
  call_arity_mismatch : (function callee expected : Name) (found : ℕ) → VerifyError
  call_arg_type_mismatch :
      (function callee : Name) (index : ℕ) (expected found : Name) → VerifyError
  invalid_constant : (constant : ℕ) (reason : Name) → VerifyError
  duplicate_function_name : (name : Name) → VerifyError
  invalid_declaration : (function : Name) (reason : Reason) → VerifyError
  variadic_definition : (function : Name) → VerifyError
  invalid_signature : (function : Name) (reason : Reason) → VerifyError
