-- ===== src/Manifest/Laws.antt =====
-- src/manifest.rs: reading a manifest runs no command.
use embuer.Base.{Result}
use embuer.Text.{Text}
use embuer.Host.{Host, Event}
use embuer.Host.Trace.{Emits, emit_rules}
use embuer.Manifest.{Manifest, from_file}

pub Emits-from_file :
    (from_str : Text → Result Text Manifest) (H : Host) {P : Event → Type 0} (path : Text)
    → Emits {H = H} P (from_file from_str H path)
unfolding from_file
Emits-from_file from_str H path = search emit_rules
