-- ===== src/Bluetooth/Nvm/Flags.antt =====
-- The bits that the IBS flags are.
use ubuntu_install_on_samsun.Prelude.{
  ℕ, ◌+◌, ◌*◌, ◌/◌, ◌%◌, ◌<◌, ◌≡◌, refl, Bool, true, false, ◌==◌, if◌then◌else◌, ==→≡, passes_below,
  table_entry,
}
use ubuntu_install_on_samsun.Bluetooth.Nvm.{flag}

-- The flag is the top or the lowest bit of the byte, and the other bits stay.
uart_flag_table :
    (enable_ibs : Bool)
    → passes_below (λ b. flag enable_ibs 128 b == b % 128 + (if enable_ibs then 128 else 0)) 256
      ≡ true
unfolding passes_below
uart_flag_table true = refl
uart_flag_table false = refl

sleep_flag_table :
    (enable_ibs : Bool)
    → passes_below (λ b. flag enable_ibs 1 b == b / 2 * 2 + (if enable_ibs then 1 else 0)) 256
      ≡ true
unfolding passes_below
sleep_flag_table true = refl
sleep_flag_table false = refl

-- On a byte, the UART flag is bit 7 and the sleep flag bit 0: each is set or cleared as asked, and
-- the other seven bits stay.
pub flag_bits :
    (enable_ibs : Bool) (b : ℕ)
    → b < 256
    → (flag enable_ibs 128 b ≡ b % 128 + (if enable_ibs then 128 else 0))
      × (flag enable_ibs 1 b ≡ b / 2 * 2 + (if enable_ibs then 1 else 0))
flag_bits enable_ibs b h =
    let top =
      table_entry (λ k. flag enable_ibs 128 k == k % 128 + (if enable_ibs then 128 else 0)) 256 b h
        (uart_flag_table enable_ibs) in
    let low =
      table_entry (λ k. flag enable_ibs 1 k == k / 2 * 2 + (if enable_ibs then 1 else 0)) 256 b h
        (sleep_flag_table enable_ibs) in
    (==→≡ _ _ top, ==→≡ _ _ low)
