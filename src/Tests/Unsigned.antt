-- ===== src/Tests/Unsigned.antt =====
-- src/service.rs: a service whose sources serve an update with a signature of something else. Here
-- the hash of bytes is their number, so that a signature can verify only for seven bytes.
use mathlib.Core.Path.{subst}
use embuer.Base.{
  ℕ, zero, suc, ◌≤◌, List, [], ◌∷◌, ◌++◌, ◌≡◌, ◌≢◌, refl, ap, sym, if◌then◌else◌, ◌==◌, Bool, true,
  false, Result, ok, err, length, length-append, replicate, arith,
}
use embuer.Text.{Text, text, text_eq}
use embuer.Error.{ServiceError}
use embuer.Crypto.{Crypto, HashesByParts}
use embuer.Signature.{
  Run, returned, panicked, verify_signature, verify_decoded, check_block, check_hash, full_padded,
  key_size, skip_padding, index, differs, slice, compare_hash,
}
use embuer.Stream.{Poll, ready}
use embuer.Stream.Draws.{data_of}
use embuer.Service.State.{UpdateSource, url, file}
use embuer.Service.Start.{initial}
use embuer.Service.Process.{External}
use embuer.Service.Requests.{
  Entry, Sources, contents, extract_url_update_contents, extract_file_update_contents,
  update_request_loop,
}
use embuer.Service.Requests.Holds.{ArchiveHolds, FlowHolds}
use embuer.Service.Requests.Authentic.{Unsigned, Harmless, update_request_loop-Harmless}
use embuer.Tests.World.{crypto, key, host, env, inner, external}

abbrev number : List ℕ → List ℕ
number bytes = length bytes ∷ []

abbrev counting : Crypto
counting = record crypto { finalize = number }

abbrev counts : HashesByParts counting number
counts = record {
  absorbed = λ h. h;
  absorbed-fresh = refl;
  absorbed-update = λ h bytes. refl;
  finalize_lem = λ h. refl;
}

abbrev counted : External
counted = record external { crypto = counting }

abbrev one_byte : List Poll
one_byte = ready (8 ∷ []) ∷ []

abbrev signed : List ℕ
signed = replicate 24 1

abbrev IsServed : List ℕ → Type 0
IsServed signature = signature ≡ signed

abbrev named : Text → Entry
named path = record {
  path = ok path;
  read_to_string = ok (text "Version 2");
  read_to_end = ok signed;
  entry_size = ok 1;
  stream = one_byte;
}

abbrev bundle : List (Result Text Entry)
bundle =
    ok (named (text "CHANGELOG"))
    ∷ ok (named (text "update.signature"))
    ∷ ok (named (text "update.btrfs.xz"))
    ∷ []

abbrev serving : Sources host
serving = record {
  get = λ s u. ok (record { is_success = true; body = ok bundle });
  open_file = λ s path. ok (ok bundle);
}

abbrev IsAccepted : Run (Result ServiceError (Unit {0})) → Type 0
IsAccepted (returned (ok x)) = Unit
IsAccepted (returned (err e)) = ⊥
IsAccepted panicked = ⊥

if-refused :
    (b : Bool) (x y : Run (Result ServiceError (Unit {0})))
    → ¬ IsAccepted x
    → ¬ IsAccepted y
    → ¬ IsAccepted (if b then x else y)
if-refused true x y h k = h
if-refused false x y h k = k

not_zero : (signature : List ℕ) → ¬ IsAccepted (verify_signature counting key signature (0 ∷ []))
unfolding verify_signature verify_decoded check_block check_hash full_padded key_size skip_padding
    index differs slice compare_hash text_eq
not_zero signature = if-refused (length signature == 24) _ (returned (err _)) (λ x. x) (λ x. x)

not_one : (signature : List ℕ) → ¬ IsAccepted (verify_signature counting key signature (1 ∷ []))
unfolding verify_signature verify_decoded check_block check_hash full_padded key_size skip_padding
    index differs slice compare_hash text_eq
not_one signature = if-refused (length signature == 24) _ (returned (err _)) (λ x. x) (λ x. x)

few :
    (signature : List ℕ) (n : ℕ)
    → n ≤ 1
    → verify_signature counting key signature (n ∷ []) ≢ returned (ok tt)
few signature zero h v = not_zero signature (subst IsAccepted (sym v) tt)
few signature (suc zero) h v = not_one signature (subst IsAccepted (sym v) tt)
few signature (suc (suc n)) h v = omega arith

one_byte-Unsigned : Unsigned counted inner number IsServed one_byte
unfolding data_of
one_byte-Unsigned signature bytes more g p =
    let l : 1 ≡ length (bytes ++ more) = ap length p in
    few signature (length bytes) (omega (arith, l, length-append bytes more))

served :
    (source : UpdateSource) (at : host.State)
    → ArchiveHolds IsServed
        (Unsigned counted inner number IsServed)
        (contents counted serving inner true source at)
unfolding contents extract_url_update_contents extract_file_update_contents
served (url u) at =
    ((refl, one_byte-Unsigned), ((refl, one_byte-Unsigned), ((refl, one_byte-Unsigned), tt)))
served (file path) at =
    ((refl, one_byte-Unsigned), ((refl, one_byte-Unsigned), ((refl, one_byte-Unsigned), tt)))

update_request_loop-Harmless_example : FlowHolds (Harmless inner env) (Harmless inner env) (
    update_request_loop counted serving inner true
      (url (text "u") ∷ file (text "f") ∷ [])
      (initial env))
update_request_loop-Harmless_example =
    update_request_loop-Harmless counted inner number counts IsServed env true serving served
      (url (text "u") ∷ file (text "f") ∷ []) (initial env) refl
