-- ===== src/Tests/Notifier.antt =====
-- Runs of the notification values.
use zenux_services.Prelude.{◌≡◌, ◌&&◌, ◌||◌, not, arith}
use zenux_services.Prelude.Bits.{test_bit}
use zenux_services.Notifier.{NotificationValue, set_value, clr_value, reported, set_value-clr_value}

abbrev pending : NotificationValue
pending = record { value = 0b0101 }

-- Bit 2 is acknowledged and rises again.
set_value-clr_value_example :
    test_bit (reported (set_value (clr_value pending 0b0100) 0b0100).1) 2
    ≡ (test_bit 0b0100 2 && (test_bit 0b0100 2 || not (test_bit pending.value 2)))
set_value-clr_value_example =
    set_value-clr_value pending 0b0100 0b0100 2 (omega arith) (omega arith)
