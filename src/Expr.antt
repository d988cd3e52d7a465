-- ===== src/Expr.antt =====
-- Conditions on edges: the `when` expressions of a process, linted by src/bpg/compiler/expr_lint.py
-- and evaluated by src/bpg/runtime/expr.py.
pub mod Tokens
pub mod Lint
pub mod Paths
pub mod Compare
pub mod Eval
pub mod Scan
pub mod Source
pub mod Mapping
