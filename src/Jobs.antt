-- ===== src/Jobs.antt =====
-- internal/core/jobs.go: jobs, requests, recorded instructions and results.
use task_worker.Base.{ℕ, Bool, List, Option, Comparable, ℕ_discrete}
use task_worker.Base.Int.{ℤ}
use task_worker.Text.{Text}
use task_worker.Errors.{Fault}

abbrev pub JobId : Type 0
JobId = Text

-- An instant, in nanoseconds after Go's zero time: 0 is the zero time.
abbrev pub Time : Type 0
Time = ℕ

-- A `float64`: a finite one is a whole number of units of 2 ^ -1074, and `below n` is -(n + 1)
-- units. The two zeros, which Go's `==` identifies, are one value.
pub data Float64 : Type 0 where
  nan pos_inf neg_inf : Float64
  units below : ℕ → Float64

pub data JobState : Type 0 where
  queued running cancelling succeeded failed cancelled interrupted : JobState
  other : Text → JobState

pub record GenerationOptions : Type 0 where
  pub context_tokens : Option ℤ
  pub max_output_tokens : ℤ
  pub temperature : Option Float64
  pub seed : Option ℤ

pub record Request : Type 0 where
  pub model : Text
  pub role : Text
  pub system_prompt : Text
  pub prompt : Text
  pub options : GenerationOptions

pub data MessageRole : Type 0 where
  user assistant : MessageRole
  other : Text → MessageRole

pub record Message : Type 0 where
  pub role : MessageRole
  pub content : Text

pub record Instructions : Type 0 where
  pub system : Text
  pub history : List Message
  pub prompt : Text

pub data Relation : Type 0 where
  retry branch : Relation
  other : Text → Relation

pub record Lineage : Type 0 where
  pub parent_id : JobId
  pub relation : Relation

pub record Usage : Type 0 where
  pub input_tokens : Option ℤ
  pub output_tokens : Option ℤ
  pub total_duration_ns : Option ℤ
  pub load_duration_ns : Option ℤ
  pub generate_duration_ns : Option ℤ

pub record TokenEstimate : Type 0 where
  pub tokens : ℤ
  pub method : Text
  pub exact : Bool

pub record ContextObservation : Type 0 where
  pub tokens : ℤ
  pub model : Text
  pub source : Text
  pub observed_at : Time

pub record ContextInfo : Type 0 where
  pub model_capacity_tokens : Option ℤ
  pub model_capacity_source : Text
  pub model_capacity_observed_at : Option Time
  pub requested_tokens : Option ℤ
  pub loaded : Option ContextObservation
  pub input_estimate : Option TokenEstimate
  pub reserved_output_tokens : ℤ

pub record Result : Type 0 where
  pub text : Text
  pub finish_reason : Text
  pub effective_model : Text
  pub effective_options : Option GenerationOptions
  pub context : ContextInfo
  pub usage : Usage

pub record Job : Type 0 where
  pub id : JobId
  pub state : JobState
  pub request : Request
  pub instructions : Instructions
  pub origin : Text
  pub lineage : Option Lineage
  pub created_at : Time
  pub started_at : Option Time
  pub finished_at : Option Time
  pub result : Result
  pub error : Option Fault

unfoldable pub JobState-discrete : Discrete JobState
JobState-discrete = hlevel ℕ_discrete

unfoldable pub Request-discrete : Discrete Request
Request-discrete = hlevel ℕ_discrete

unfoldable pub Instructions-discrete : Discrete Instructions
Instructions-discrete = hlevel ℕ_discrete

unfoldable pub Lineage-discrete : Discrete Lineage
Lineage-discrete = hlevel ℕ_discrete

unfoldable pub Result-discrete : Discrete Result
Result-discrete = hlevel ℕ_discrete

instance abbrev pub JobState-comparable : Comparable JobState
JobState-comparable = record { discrete = JobState-discrete }

instance abbrev pub Request-comparable : Comparable Request
Request-comparable = record { discrete = Request-discrete }

instance abbrev pub Instructions-comparable : Comparable Instructions
Instructions-comparable = record { discrete = Instructions-discrete }

instance abbrev pub Lineage-comparable : Comparable Lineage
Lineage-comparable = record { discrete = Lineage-discrete }

instance abbrev pub Result-comparable : Comparable Result
Result-comparable = record { discrete = Result-discrete }
