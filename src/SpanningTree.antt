-- ===== src/SpanningTree.antt =====
-- internal/spanningtree: validation of a Bridge's native parameters, the order in which the
-- daemon's setters run, and the assessment of a change before it is executed.
pub mod Decimal
pub mod Parameters
pub mod Runtime
pub mod Transition
pub mod Execution
mod Examples
