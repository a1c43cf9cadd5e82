-- ===== src/Api.antt =====
-- gateway/localcanvas_gateway/api/jobs.py: the routes of jobs, over the parts that they call, without
-- HTTP. `Errors` has what is refused, `Payload` the reading of a submission, `Submit` the submission
-- and the other routes; the other children prove.
pub mod Errors
pub mod Payload
pub mod Submit
mod Usable
mod Fair
mod Ended
mod Outcome
mod Examples
