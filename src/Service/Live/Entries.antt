-- ===== src/Service/Live/Entries.antt =====
-- src/service.rs: `process_update_entry`, which the model does from its start to its end, is one way
-- in which the tasks interleave.
use embuer.Base.{
  ℕ, Bool, true, false, Option, none, some, List, [], ◌∷◌, ◌++◌, ◌≡◌, refl, ap, Result, ok, err,
}
use embuer.Text.{Text, text}
use embuer.Host.{Host, Env, Failure, error, panic, abort}
use embuer.Status.{awaiting_confirmation, installing, failed, percent}
use embuer.Stream.{Poll, scripted}
use embuer.Stream.Hashing
use embuer.Stream.Progress
use embuer.Stream.Progress.Reports.{copy-Reports}
use embuer.Receive.{receive_btrfs_stream}
use embuer.Install.{install_update}
use embuer.Service.State.{PendingUpdate, ServiceInner, ServiceState}
use embuer.Service.Version.{extract_version_from_changelog}
use embuer.Service.Process.{
  External, Outcome, decided, await_confirmation, ask_consent, consent, after_clearing,
  after_install, install, install_if, with_contents, process_update_entry,
}
use embuer.Service.Live.{
  Place, at_request, at_entries, accepted, rejecting, awaiting, in_install, in_clearing, Live, view,
}
use embuer.Service.Live.Step.{
  archive_ends, unasked, shown, asked, taken, goes_on, turns_back, rejected, installs,
  install_fails, clears, completes, sends,
}
use embuer.Service.Live.Closing.{Closing, at_once, then, closes, once, Closing-trans, Steps-Closing}
use embuer.Service.Live.Runs.{reports-Steps}

-- Where the loop goes on after an entry.
abbrev pub place_after : Text → Result Failure Bool → Place
place_after source (ok true) = at_entries source
place_after source _ = at_request

-- Steps lead to this place and this state, where an update for which there is no decision finds the
-- channel closed.
pub data Reached (auto : Bool) {H : Host} (t : Live) (p : Place) (s : ServiceState H) : Type 0 where
  arrives : (u : Live) → Closing auto t u → u.place ≡ p → view s.env u ≡ s → Reached auto t p s

pub after :
    {auto : Bool} {H : Host} (t u : Live) {p : Place} {s : ServiceState H}
    → Closing auto t u
    → Reached auto u p s
    → Reached auto t p s
after t u q (arrives v r p e) = arrives v (Closing-trans v q r) p e

module _ (auto : Bool) {H : Host} (source : Text) where
  -- Nothing is said of a panic.
  abbrev pub Ran : Live → Outcome H → Type 0
  Ran t (err panic, s) = Unit
  Ran t (err abort, s) = Unit
  Ran t (r, s) = Reached auto t (place_after source r) s

  after_steps : (t u : Live) (o : Outcome H) → Closing auto t u → Ran u o → Ran t o
  after_steps t u (err panic, s) q h = tt
  after_steps t u (err abort, s) q h = tt
  after_steps t u (err (error x), s) q h = after t u q h
  after_steps t u (ok b, s) q h = after t u q h

  module _ (X : External) (inner : ServiceInner) where
    after_clearing-Ran :
        (deployment : Text) (e : Env H) (t : Live) (r : Result Failure ℕ × Env H)
        → t.place ≡ in_clearing source deployment
        → Ran t (after_clearing X inner source deployment (view e t) r)
    unfolding after_clearing
    after_clearing-Ran deployment e t (err panic, e') p = tt
    after_clearing-Ran deployment e t (err abort, e') p = tt
    after_clearing-Ran deployment e t (err (error x), e') p =
        arrives _ (once (completes source deployment p)) refl refl
    after_clearing-Ran deployment e t (ok n, e') p =
        arrives _ (once (completes source deployment p)) refl refl

    after_install-Ran :
        (r : Result Failure (Option Text)) (e : Env H) (t : Live)
        → t.place ≡ in_install source
        → Ran t (after_install X inner source r (view e t))
    unfolding after_install
    after_install-Ran (ok (some deployment)) e t p =
        after_steps t _ _ (once (clears source deployment p))
          (after_clearing-Ran deployment e _ _ refl)
    after_install-Ran (ok none) e t p = arrives _ (once (install_fails source _ p)) refl refl
    after_install-Ran (err (error x)) e t p = arrives _ (once (install_fails source _ p)) refl refl
    after_install-Ran (err panic) e t p = tt
    after_install-Ran (err abort) e t p = tt

    install-Ran :
        (signature : List ℕ) (stream : List Poll) (size : ℕ) (e : Env H) (t : Live)
        → t.place ≡ accepted source
        → Ran t (install X inner source signature stream size (view e t))
    unfolding install install_update receive_btrfs_stream Progress.new Hashing.new
    install-Ran signature stream size e t p =
        let reader = Hashing.new X.crypto (Progress.new (X.clock 0) stream (some size) source) in
        let reported =
          copy-Reports X.crypto X.float source X.clock scripted (H.reads e.host) reader
            (refl, tt) in
        let t' : Live = record t {
          place = in_install source;
          update_status = installing source (percent 0);
        } in
        after_steps t _ _
          (Closing-trans _ (once (installs source p))
            (Steps-Closing _ (reports-Steps source t' _ _ refl reported.1 refl)))
          (after_install-Ran _ _ _ refl)

    -- The update awaits its decision, and the channel has one.
    received-Ran :
        (signature : List ℕ) (stream : List Poll) (size : ℕ) (w : PendingUpdate) (e : Env H)
        (t : Live) (decision : Bool) (c : List Bool)
        → w.source ≡ source
        → t.place ≡ awaiting w
        → t.channel ≡ decision ∷ c
        → Ran t (
            install_if X inner source signature stream size
              (decided source (view e t) (decision ∷ c ++ t.senders)))
    unfolding install_if decided
    received-Ran signature stream size w e t true c z p q =
        after_steps t _ _ (then _ _ (once (taken w true c p q)) (goes_on w refl))
          (install-Ran signature stream size e _ (ap accepted z))
    received-Ran signature stream size w e t false c z p q =
        arrives _
          (then _ _ (then _ _ (once (taken w false c p q)) (turns_back w refl))
            (rejected source (ap rejecting z)))
          refl refl

    -- The update awaits its decision: the first one is taken, from the channel or from a sender.
    decided-Ran :
        (signature : List ℕ) (stream : List Poll) (size : ℕ) (w : PendingUpdate) (e : Env H)
        (t : Live) (c s : List Bool)
        → w.source ≡ source
        → t.place ≡ awaiting w
        → auto ≡ false
        → Ran
            (record t { channel = c; senders = s })
            (install_if X inner source signature stream size
              (decided source (view e (record t { channel = c; senders = s })) (c ++ s)))
    unfolding install_if decided
    decided-Ran signature stream size w e t (d ∷ c) s z p a =
        received-Ran signature stream size w e (record t { channel = d ∷ c; senders = s }) d c z p
          refl
    decided-Ran signature stream size w e t [] (d ∷ s) z p n =
        after_steps _ _ _ (once (sends d s refl refl)) (
          received-Ran signature stream size w e (record t { channel = d ∷ []; senders = s }) d [] z
            p refl)
    decided-Ran signature stream size w e t [] [] z p a =
        arrives _ (closes _ w at_once p refl refl) refl (closed w.source z)
      where
        closed :
            (d : Text)
            → d ≡ source
            → view e (record t {
              place = at_request;
              update_status = failed d (text "Confirmation channel closed");
              pending_update = none;
              channel = [];
              senders = [];
            })
              ≡ record (view e t) {
                update_status = failed source (text "Confirmation channel closed");
                pending_update = none;
                decisions = [];
              }
        closed d z = rw z

    contents-Ran :
        (stream : List Poll) (size : ℕ) (changelog : Text) (signature : List ℕ) (e : Env H)
        (t : Live)
        → t.place ≡ at_entries source
        → (b : Bool) → auto ≡ b
        → Ran t (with_contents X inner source b stream size changelog signature (view e t))
    unfolding with_contents consent ask_consent await_confirmation install_if
    contents-Ran stream size changelog signature e t p true a =
        after_steps t _ _ (once (unasked source a p)) (install-Ran signature stream size e _ refl)
    contents-Ran stream size changelog signature e t p false a =
        let w : PendingUpdate = record {
          version = extract_version_from_changelog X.is_alphanumeric changelog;
          changelog = changelog;
          source = source;
        } in
        let t' : Live = record t {
          place = awaiting w;
          update_status = awaiting_confirmation w.version source;
          pending_update = some w;
        } in
        after_steps t t' _ (then _ _ (once (shown w a p)) (asked w refl))
          (decided-Ran signature stream size w e t' t.channel t.senders refl refl a)

    -- From each state in which the loop is at the entries of an archive, steps lead to the state
    -- that `process_update_entry` gives, and the loop is then at the entries behind it, or at the
    -- next request after a rejection or an error. An update without a decision finds the channel
    -- closed.
    pub process_update_entry-Ran :
        (c : Option Text) (g : Option (List ℕ)) (stream : List Poll) (size : ℕ) (e : Env H)
        (t : Live)
        → t.place ≡ at_entries source
        → Ran t (process_update_entry X inner source auto c g stream size (view e t))
    unfolding process_update_entry
    process_update_entry-Ran none g stream size e t p =
        arrives _ (once (archive_ends source p)) refl refl
    process_update_entry-Ran (some c) none stream size e t p =
        arrives _ (once (archive_ends source p)) refl refl
    process_update_entry-Ran (some c) (some g) stream size e t p =
        contents-Ran stream size c g e t p auto refl
