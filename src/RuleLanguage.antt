-- ===== src/RuleLanguage.antt =====
-- rule_language/validation.py and rule_language/indicators.py: the validation of a rule spec.
--
-- A spec is a JSON document. A check returns the normalized copy and the names of the variables
-- that it has added to `used`; `RuleSpecError` is `invalid`, without its path and its text.
-- `series` and `condition` call themselves on parts of a document: they run on fuel.
pub mod Checked
pub mod Clock
pub mod Nodes
pub mod Parameters
pub mod Indicators
pub mod Series
pub mod Conditions
pub mod Exits
pub mod Specs
pub mod Depth
pub mod Variables
mod Rules
mod Names
mod Catalogue
mod Operands
mod Branches
mod Stops
mod Pieces
pub mod Tracking
pub mod Times
pub mod Samples
