-- ===== src/Service/Live/Loop.antt =====
-- src/service.rs: `update_request_loop`, which the model does request by request, is one way in
-- which the tasks interleave.
use embuer.Base.{Bool}
use embuer.Text.{Text}
use embuer.Host.{Host}
use embuer.Service.Requests.{Flow, next, dead, Step, leave, go}
use embuer.Service.Live.{at_request, at_entries, Live}
use embuer.Service.Live.Closing.{Closing}
use embuer.Service.Live.Entries.{Reached}

module _ (auto : Bool) {H : Host} where
  -- Nothing is said of a loop that a panic has ended.
  abbrev pub RanTo : Live → Flow H → Type 0
  RanTo t (next s) = Reached auto t at_request s
  RanTo t (dead s) = Unit

  -- What a round of the loop over the entries leads to.
  abbrev RanStep : Text → Live → Step H → Type 0
  RanStep source t (leave f) = RanTo t f
  RanStep source t (go c g s) = Reached auto t (at_entries source) s
