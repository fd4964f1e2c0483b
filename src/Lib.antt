-- ===== src/Lib.antt =====
-- A model of carbonc, the compiler of the Carbon language (carbonc/).
--
-- A source file becomes a syntax tree, whose nodes live in an arena; names are declared and looked
-- up in nested scopes while types are resolved and laid out; the tree is translated into
-- instructions that pass values on an operand stack; the instructions of a function become x86-64
-- code in a stack frame. The files follow these parts:
--
-- Prelude: names, list, number and bit lemmas that the others share.
-- Token: carbonc/token.hh and carbonc/token.cc, the operator table, and
--   get_desugared_assignment_op of carbonc/type_system.cc.
-- Memory: carbonc/memory.hh and carbonc/memory.cc, the arena. Sizes and addresses wrap at 2^64. The
--   memory that `new` returns is an argument, with what it promises as a hypothesis (IsFresh).
--   next_pow2 runs on 65 rounds of fuel, enough for each argument up to 2^63.
-- TypeId: carbonc/type_id.hh.
-- Types: carbonc/type_system.hh and carbonc/type_system.cc, Types/Assign is_assignable_to,
--   is_convertible_to, is_comparable and is_castable_to, Types/Coerce try_coerce_to, Types/Query
--   tquery_for_type_kind and its kin and aggregate_find_field. Chains of types are followed on fuel,
--   enough above the ranks of Types/Assign/Total (Ranked).
-- Lexer: carbonc/lexer.cc around the C lexer, whose tokens are a data type; Lexer/Keywords and
--   Lexer/LongString are about transform_c_lexer_identifier and consume_string_until.
-- Parser: carbonc/parser.cc on the list of tokens of a source file; Parser/Binary is
--   parse_binary_expr over any reader of operands, Parser/Args the lists, Parser/Parts and
--   Parser/Expr the other functions for expressions and types, Parser/Stmt those for statements. Each
--   call has less fuel than its caller; 32 times the length of the input and 11 more is enough.
--   Parser/Expr/Printer writes expressions as tokens and is no part of the compiler.
-- Ir: carbonc/ir.hh, instructions and operands. Ir/Opstack and Ir/Dedup are the functions on the
--   operand stack and the optimiser of carbonc/ir.cc; Ir/Cond has distribute_bool_op_targets,
--   generate_ir_binary_expr and generate_ir_unary_expr on the expressions of a condition, and
--   Ir/Cond/Machine runs what they emit (Machine is no part of the compiler; the arithmetic of the
--   target is a parameter).
-- Layout: align of carbonc/common.hh, compute_struct_size_alignment_offsets of
--   carbonc/type_system.cc. Sizes are numbers without a bound (sums that
--   overflow are not modelled).
-- Codegen: carbonc/codegen_x64.hh and carbonc/codegen_x64.cc: Codegen/Registers the registers,
--   Codegen/Frame get_func_stack_frame_size, with the source's sizes of 32 bits (int32, to_int32; where
--   one would be negative or overflow, the model gives nothing), Codegen/Temps determine_instrs_destination,
--   Codegen/Prologue the code that generate_func_code puts around a body, on a machine with a stack
--   of words.
-- Scope: carbonc/scope.cc. Scopes are in a store and named by their place in it. The searches
--   through enclosing scopes run on fuel, the number of scopes.
-- Text: split of carbonc/common.cc, and the paths of carbonc/fs.cc as on POSIX systems.
-- Tests: each result at a concrete input.
--
-- Not modelled: the C lexer of deps/ (another project's), input and output, the text of assembly,
-- the driver and diagnostics; declarations in the parser, the resolution passes of the type system,
-- and the rest of the code generators.
pub mod Prelude
pub mod Token
pub mod Memory
pub mod TypeId
pub mod Ir
pub mod Layout
pub mod Codegen
pub mod Scope
pub mod Text
pub mod Types
pub mod Lexer
pub mod Parser
pub mod Tests
