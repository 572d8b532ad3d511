-- ===== src/Python.antt =====
-- What the modules share of Python: exceptions, methods that change a state and may raise, and text.
pub mod Text
pub mod Json
pub mod Raising
pub mod Exec
use quant_factory.Prelude.{Bool, true, false, Option, none, some}

-- The exception classes that the modelled code raises, without their messages.
pub data Exn : Type 0 where
  key_error value_error type_error attribute_error assertion_error json_decode_error : Exn
  sqlite_integrity : Exn
  launch_key launch conflict contention launch_integrity invocation_unknown invocation : Exn
  stage_unknown replay_incomplete adapter_error : Exn
  run_service fixture_timeout : Exn

pub data Result (A : Type 0) : Type 0 where
  ok : A → Result A
  err : Exn → Result A

abbrev pub raise_unless : Bool → Exn → Result (Unit {0})
raise_unless true e = ok tt
raise_unless false e = err e

abbrev pub raise_if : Bool → Exn → Result (Unit {0})
raise_if true e = err e
raise_if false e = ok tt

abbrev pub or_raise : {A : Type 0} → Option A → Exn → Result A
or_raise none e = err e
or_raise (some a) e = ok a
