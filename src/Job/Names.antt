-- ===== src/Job/Names.antt =====
-- The stored names of the statuses: what is written is what is read.
use gdom.Base.{◌≡◌, refl, ◌↔◌, String, ok, ap, ◌∙◌, parse-name}
use gdom.Job.Status.{JobStatus, draft, as_str, from_str, status_arms, invalid_job_status}

from_str-as_str : (s : JobStatus) → from_str (as_str s) ≡ ok s
unfolding from_str as_str
from_str-as_str draft = refl
from_str-as_str _ = refl

as_str_of_from_str : (t : String) (s : JobStatus) → from_str t ≡ ok s → t ≡ as_str s
unfolding from_str as_str
as_str_of_from_str t s h = parse-name as_str t status_arms invalid_job_status s refl h

-- A text is read as a job status exactly when it is the name that is written for that status.
pub from_str_iff : (t : String) (s : JobStatus) → (from_str t ≡ ok s) ↔ (t ≡ as_str s)
from_str_iff t s = (as_str_of_from_str t s, λ e. ap from_str e ∙ from_str-as_str s)
