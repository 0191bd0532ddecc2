-- ===== src/App/Screens/Calm/Screens.antt =====
-- The three screens of src/main.rs that run on the commands alone do not panic.
use amt_uefi_boot_app.Outcome.Rules.{Calm}
use amt_uefi_boot_app.App.Machine.{Machine, App}
