-- ===== src/Oee.antt =====
-- The OEE engine (12_uns_oee): its pure arithmetic, and the shift pipeline built on it.
pub mod Interval
pub mod States
pub mod Tables
pub mod Store
pub mod Inputs
pub mod Fingerprint
pub mod Pipeline
pub mod Counters
pub mod Classifier
pub mod Calc
pub mod Shifts
pub mod Schedule
mod Examples
mod ShiftExamples
mod CalendarExamples
