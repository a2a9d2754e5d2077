-- ===== src/Ffi/Writes.antt =====
-- src/ffi.rs: what the calls write.
use embuer.Base.{
  ℕ, Bool, true, false, none, some, Result, ok, err, List, [], ◌∷◌, ◌≡◌, ◌≢◌, refl, ◌||◌, All,
}
use embuer.Text.{Text}
use embuer.Host.{Host}
use embuer.Dbus.{Shown}
use embuer.Proxy.{Link, System}
use embuer.Proxy as proxy
use embuer.Ffi.{
  ℤ, Code, embuer_ok, embuer_err_null_ptr, Value, string, Pointer, Memory, CText, Called, has_nul,
  nonzero, write_all, finish, message, boot_info, status, pending, embuer_get_boot_info,
  embuer_get_status, embuer_install_from_file, embuer_install_from_url, embuer_get_pending_update,
  embuer_confirm_update,
}

-- The calls that write through pointers, with their arguments.
pub data Call : Type 0 where
  get_boot_info : Pointer → Pointer → Call
  get_status : Pointer → Pointer → Pointer → Call
  install_from_file install_from_url : CText → Pointer → Call
  get_pending_update : Pointer → Pointer → Pointer → Call
  confirm_update : ℤ → Pointer → Call

abbrev pub serve : {H : Host} → Call → Bool → Link → Memory → System H → Called H
serve (get_boot_info p q) client link mem s = embuer_get_boot_info client p q link mem s
serve (get_status p q r) client link mem s = embuer_get_status client p q r link mem s
serve (install_from_file t p) client link mem s = embuer_install_from_file client t p link mem s
serve (install_from_url t p) client link mem s = embuer_install_from_url client t p link mem s
serve (get_pending_update p q r) client link mem s =
    embuer_get_pending_update client p q r link mem s
serve (confirm_update a p) client link mem s = embuer_confirm_update client a p link mem s

-- A value that C can read: its string has no NUL character.
abbrev pub IsReadable : ℕ × Value → Type 0
IsReadable (address, string t) = has_nul t ≡ false
IsReadable (address, v) = Unit {0}

-- The pointers that a call is given for its results.
abbrev pub outputs : Call → List Pointer
outputs (get_boot_info p q) = p ∷ q ∷ []
outputs (get_status p q r) = p ∷ q ∷ r ∷ []
outputs (install_from_file t p) = p ∷ []
outputs (install_from_url t p) = p ∷ []
outputs (get_pending_update p q r) = p ∷ q ∷ r ∷ []
outputs (confirm_update a p) = p ∷ []

abbrev pub addresses : List (ℕ × Value) → List Pointer
addresses [] = []
addresses ((a, v) ∷ rest) = some a ∷ addresses rest

-- Either there is an error and the memory is as it was, or each output has been written, with
-- values that C can read, and nothing else.
pub data Returns {H : Host} (outs : List Pointer) (mem : Memory) : Called H → Type 0 where
  failed : (code : Code) (s : System H) → code ≢ embuer_ok → Returns outs mem (code, mem, s)
  written :
      (writes : List (ℕ × Value)) (s : System H)
      → addresses writes ≡ outs
      → All IsReadable writes
      → Returns outs mem (embuer_ok, write_all writes mem, s)

or-false : (a b : Bool) → (a || b) ≡ false → (a ≡ false) × (b ≡ false)
or-false false false h = (refl, refl)
or-false false true h = cc
or-false true b h = cc

module _ {H : Host} (mem : Memory) where
  finish-Returns :
      (bad : Bool) (outs : List Pointer) (writes : List (ℕ × Value)) (s : System H)
      → addresses writes ≡ outs
      → (bad ≡ false → All IsReadable writes)
      → Returns outs mem (finish {H = H} bad writes mem s)
  unfolding finish
  finish-Returns true outs writes s e h = failed _ s (λ p. cc)
  finish-Returns false outs writes s e h = written writes s e (h refl)

  message-Returns :
      (p : ℕ) (r : Result Text Text × System H)
      → Returns (some p ∷ []) mem (message {H = H} p mem r)
  unfolding message
  message-Returns p (ok msg, s) = finish-Returns (has_nul msg) _ _ s refl (λ h. (h, tt))
  message-Returns p (err e, s) = failed _ s (λ q. cc)

  boot_info-Returns :
      (p q : ℕ) (r : Result Text (ℕ × Text) × System H)
      → Returns (some p ∷ some q ∷ []) mem (boot_info {H = H} p q mem r)
  unfolding boot_info
  boot_info-Returns p q (ok (id, name), s) =
      finish-Returns (has_nul name) _ _ s refl (λ h. (tt, (h, tt)))
  boot_info-Returns p q (err e, s) = failed _ s (λ q. cc)

  status-Returns :
      (p q r : ℕ) (x : Result Text Shown × System H)
      → Returns (some p ∷ some q ∷ some r ∷ []) mem (status {H = H} p q r mem x)
  unfolding status
  status-Returns p q r (ok (name, details, progress), s) =
      finish-Returns (has_nul name || has_nul details) _ _ s refl
        (λ h. let (a, b) = or-false (has_nul name) (has_nul details) h in (a, (b, (tt, tt))))
  status-Returns p q r (err e, s) = failed _ s (λ q. cc)

  pending-Returns :
      (p q r : ℕ) (x : Result Text (Text × Text × Text) × System H)
      → Returns (some p ∷ some q ∷ some r ∷ []) mem (pending {H = H} p q r mem x)
  unfolding pending
  pending-Returns p q r (ok (version, changelog, source), s) =
      finish-Returns (has_nul version || has_nul changelog || has_nul source) _ _ s refl (λ h.
        let (ab, c) = or-false (has_nul version || has_nul changelog) (has_nul source) h in
        let (a, b) = or-false (has_nul version) (has_nul changelog) ab in (a, (b, (c, tt))))
  pending-Returns p q r (err e, s) = failed _ s (λ q. cc)

  null : (outs : List Pointer) (s : System H) → Returns outs mem (embuer_err_null_ptr, mem, s)
  null outs s = failed _ s (λ p. cc)

-- A call for C that fails leaves the memory of its caller as it was. A call that returns EMBUER_OK
-- was given no null pointer for its results, and has written each of them, with strings that have
-- no NUL character, and nothing else.
pub serve-Returns :
    {H : Host} (client : Bool) (call : Call) (link : Link) (mem : Memory) (s : System H)
    → Returns (outputs call) mem (serve call client link mem s)
unfolding embuer_get_boot_info embuer_get_status embuer_install_from_file embuer_install_from_url
    embuer_get_pending_update embuer_confirm_update
serve-Returns true (get_boot_info (some p) (some q)) link mem s =
    boot_info-Returns mem p q (proxy.get_boot_info link s)
serve-Returns true (get_status (some p) (some q) (some r)) link mem s =
    status-Returns mem p q r (proxy.get_update_status link s)
serve-Returns true (install_from_file (some (some t)) (some p)) link mem s =
    message-Returns mem p (proxy.install_update_from_file t link s)
serve-Returns true (install_from_file (some none) (some p)) link mem s = failed _ s (λ p. cc)
serve-Returns true (install_from_url (some (some t)) (some p)) link mem s =
    message-Returns mem p (proxy.install_update_from_url t link s)
serve-Returns true (install_from_url (some none) (some p)) link mem s = failed _ s (λ p. cc)
serve-Returns true (get_pending_update (some p) (some q) (some r)) link mem s =
    pending-Returns mem p q r (proxy.get_pending_update link s)
serve-Returns true (confirm_update a (some p)) link mem s =
    message-Returns mem p (proxy.confirm_update (nonzero a) link s)
serve-Returns false (get_boot_info p q) link mem s = null mem (outputs (get_boot_info p q)) s
serve-Returns false (get_status p q r) link mem s = null mem (outputs (get_status p q r)) s
serve-Returns false (install_from_file t p) link mem s =
    null mem (outputs (install_from_file t p)) s
serve-Returns false (install_from_url t p) link mem s = null mem (outputs (install_from_url t p)) s
serve-Returns false (get_pending_update p q r) link mem s =
    null mem (outputs (get_pending_update p q r)) s
serve-Returns false (confirm_update a p) link mem s = null mem (outputs (confirm_update a p)) s
serve-Returns true call link mem s = null mem (outputs call) s
