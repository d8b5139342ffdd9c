-- ===== src/Config/Sensitivity.antt =====
-- pdsno/config/sensitivity_classifier.py: the levels, and the classifier in the children.
pub mod Classifier
pub mod Details
pub mod Custom
mod Tests

pub data SensitivityLevel : Type 0 where
  low medium high : SensitivityLevel
