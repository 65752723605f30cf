-- ===== src/Tests/Traces.antt =====
-- The trace of an answer, in the context of its call.
use market_cell.Prelude.{◌≡◌, ◌↔◌, ok}
use market_cell.Execution.Traces.{validate_execution_trace_context}
use market_cell.Execution.Traces.Matches.{IsOf, validate_execution_trace_context_iff}
use market_cell.Tests.Control.{context, answered}

validate_execution_trace_context_iff_example :
    (validate_execution_trace_context (answered context).trace context ≡ ok tt)
    ↔ IsOf (answered context).trace context
validate_execution_trace_context_iff_example =
    validate_execution_trace_context_iff (answered context).trace context
