-- ===== src/Heci/Startup.antt =====
-- src/pci.rs, and `init` and `reset` of src/heci/mod.rs (the UEFI target). An access to an I/O port
-- is kept as one to a register with the port's number.
use amt_uefi_boot_app.Heci.Regs.{
  me_csr_ha, h_csr, csr_rdy, csr_rst, csr_ig, heci_polls, not32, csr_get_cbd,
}
use amt_uefi_boot_app.Heci.Device.{HeciContext, reg_write, reg_read}
use amt_uefi_boot_app.Prelude.{
  ℕ, zero, suc, ◌*◌, ◌%◌, ◌^◌, ◌||◌, ◌==◌, if◌then◌else◌, bit_and, bit_or, ◌≡◌, refl,
}
use amt_uefi_boot_app.Outcome.{timeout, not_found, Action, pure, fail, modify, ◌>>=◌, ◌>>◌}

abbrev pub pci_config_addr : ℕ
pci_config_addr = 0xcf8

abbrev pub pci_config_data : ℕ
pci_config_data = 0xcfc

unfoldable pub pci_addr : ℕ → ℕ → ℕ → ℕ → ℕ
pci_addr bus device function offset =
    bit_or (bit_or (bit_or (bit_or (2 ^ 31) (bus * 2 ^ 16)) (device * 2 ^ 11)) (function * 2 ^ 8))
      (bit_and offset 0xfc)

unfoldable pub config_read32 : ℕ → Action HeciContext ℕ
config_read32 addr = reg_write pci_config_addr addr >> reg_read pci_config_data

unfoldable pub config_read16 : ℕ → Action HeciContext ℕ
config_read16 addr = config_read32 addr >>= λ value. pure (value % 2 ^ 16)

unfoldable pub config_write16 : ℕ → ℕ → Action HeciContext (Unit {0})
config_write16 addr value = reg_write pci_config_addr addr >> reg_write pci_config_data value

unfoldable pub wait_me_ready_loop : ℕ → Action HeciContext (Unit {0})
wait_me_ready_loop zero = fail timeout
wait_me_ready_loop (suc polls) =
    let again = wait_me_ready_loop polls in
    reg_read me_csr_ha >>= λ csr. if bit_and csr csr_rdy == 0 then again else pure tt

unfoldable pub reset : Action HeciContext (Unit {0})
reset = reg_read h_csr >>= λ before.
    reg_write h_csr (bit_or before (bit_or csr_rst csr_ig))
    >> (wait_me_ready_loop heci_polls
        >> (reg_read h_csr >>= λ ready.
            reg_write h_csr (bit_or (bit_and ready (not32 csr_rst)) (bit_or csr_rdy csr_ig))
            >> (reg_read h_csr >>= λ depth.
                modify (λ s. record s { cb_depth = csr_get_cbd depth }))))

abbrev pub base_addr : ℕ
base_addr = 0x8000_b000

-- The address that the base registers give: 32 bits, or 64 in two registers.
unfoldable pub bar_addr : ℕ → Action HeciContext ℕ
bar_addr bar0 =
    let low = bit_and bar0 0xffff_fff0 in
    if bit_and bar0 6 == 4
    then (config_read32 (bit_or base_addr 0x14) >>= λ high. pure (bit_or low (high * 2 ^ 32)))
    else pure low

unfoldable pub enable_memory : ℕ → Action HeciContext (Unit {0})
enable_memory cmd =
    if bit_and cmd 2 == 0 then config_write16 (bit_or base_addr 4) (bit_or cmd 2) else pure tt

unfoldable pub init : Action HeciContext (Unit {0})
init s =
    (config_read16 base_addr >>= λ vendor.
    if vendor == 0x8086
    then (config_read32 (bit_or base_addr 0x10) >>= λ bar0.
        if bar0 == 0 || bar0 == 0xffff_ffff
        then fail not_found
        else (config_read16 (bit_or base_addr 4) >>= enable_memory)
          >> (bar_addr bar0 >>= λ mmio_base. modify (λ t. record t { mmio = mmio_base }) >> reset))
    else fail not_found)
      (record s { mmio = 0; me_addr = 0; host_addr = 0 })

-- The device's address is that of bus 0, device 22, function 0.
base_addr_lem : pci_addr 0 22 0 0 ≡ base_addr
unfolding pci_addr
base_addr_lem = refl
