-- ===== src/Bluetooth/Scenarios.antt =====
-- The Bluetooth helper on a small calibration image with the three tags that it patches.
use ubuntu_install_on_samsun.Prelude.{
  ℕ, ◌%◌, ◌≡◌, refl, ◌≢◌, true, false, Option, none, some, List, [], ◌∷◌, ◌++◌, arith, ◌==◌,
  if◌then◌else◌, length, ok, pos, negsuc,
}
use ubuntu_install_on_samsun.Prelude.Blob.{byte}
use ubuntu_install_on_samsun.Bluetooth.Nvm.{
  Tag, iter_nvm_tags, Override, default, overridden, apply_xml_overrides, override_all, override,
  change, write_offsets, walk, find_tag, patch_nvm, patch_tags, patch_address, patch_uart,
  patch_sleep,
}
use ubuntu_install_on_samsun.Bluetooth.Nvm.Patch.{IsPatched, patch_nvm-IsPatched}
use ubuntu_install_on_samsun.Bluetooth.Nvm.Overrides.{apply_xml_overrides_keeps}
use ubuntu_install_on_samsun.Bluetooth.Address.{new_address, persistent_address}
use ubuntu_install_on_samsun.Bluetooth.Address.Roundtrip.{AreBytes, persistent_address_stable}
use ubuntu_install_on_samsun.Bluetooth.Transport.{Uart, read_event, read_from}
use ubuntu_install_on_samsun.Bluetooth.Transport.Framing.{event_of, read_event_framed}
use ubuntu_install_on_samsun.Bluetooth.Controller.{
  Controller, download_segment, download_segments, download_tlv, query_version, set_high_speed,
  query_board_id, reset, bring_up,
}
use ubuntu_install_on_samsun.Bluetooth.Controller.Answers.{download_command, download_tlv_completes}
use ubuntu_install_on_samsun.Bluetooth.Controller.Startup.{IsLoaded, bring_up_loads}

abbrev image : List ℕ
image =
    2 ∷ 45 ∷ 0 ∷ 0 ∷ 2 ∷ 0 ∷ 6 ∷ 0 ∷ 0 ∷ 0 ∷ 0 ∷ 0 ∷ 0 ∷ 0 ∷ 0 ∷ 0 ∷ 1 ∷ 2 ∷ 3 ∷ 4 ∷ 5 ∷ 6 ∷ 17 ∷ 0
    ∷ 2 ∷ 0 ∷ 0 ∷ 0 ∷ 0 ∷ 0 ∷ 0 ∷ 0 ∷ 0 ∷ 0 ∷ 4 ∷ 14 ∷ 27 ∷ 0 ∷ 1 ∷ 0 ∷ 0 ∷ 0 ∷ 0 ∷ 0 ∷ 0 ∷ 0 ∷ 0
    ∷ 0 ∷ 7 ∷ []

abbrev tags : List Tag
tags =
    record { id = 2; start = 16; size = 6 }
    ∷ record { id = 17; start = 34; size = 2 }
    ∷ record { id = 27; start = 48; size = 1 }
    ∷ []

image_tags : iter_nvm_tags image ≡ ok tags
unfolding iter_nvm_tags walk
image_tags = refl

-- The second byte of tag 17 is overridden.
abbrev one_byte : Override
one_byte = record {
  tag_number = some 17;
  expected_len = pos 2;
  values = pos 99 ∷ [];
  change_type = default;
  offsets = pos 1 ∷ [];
}

abbrev overridden_image : List ℕ
overridden_image =
    2 ∷ 45 ∷ 0 ∷ 0 ∷ 2 ∷ 0 ∷ 6 ∷ 0 ∷ 0 ∷ 0 ∷ 0 ∷ 0 ∷ 0 ∷ 0 ∷ 0 ∷ 0 ∷ 1 ∷ 2 ∷ 3 ∷ 4 ∷ 5 ∷ 6 ∷ 17 ∷ 0
    ∷ 2 ∷ 0 ∷ 0 ∷ 0 ∷ 0 ∷ 0 ∷ 0 ∷ 0 ∷ 0 ∷ 0 ∷ 4 ∷ 99 ∷ 27 ∷ 0 ∷ 1 ∷ 0 ∷ 0 ∷ 0 ∷ 0 ∷ 0 ∷ 0 ∷ 0 ∷ 0
    ∷ 0 ∷ 7 ∷ []

override_runs : apply_xml_overrides image (one_byte ∷ []) ≡ ok ((overridden_image, 17 ∷ []))
unfolding apply_xml_overrides iter_nvm_tags walk override_all override change write_offsets find_tag
override_runs = refl

apply_xml_overrides_keeps_example :
    (iter_nvm_tags overridden_image ≡ ok tags) × (length overridden_image ≡ length image)
apply_xml_overrides_keeps_example =
    apply_xml_overrides_keeps image overridden_image (17 ∷ []) (one_byte ∷ []) tags refl image_tags
      override_runs

abbrev renumbered : List ℕ
renumbered =
    2 ∷ 45 ∷ 0 ∷ 0 ∷ 2 ∷ 0 ∷ 6 ∷ 0 ∷ 0 ∷ 0 ∷ 0 ∷ 0 ∷ 0 ∷ 0 ∷ 0 ∷ 0 ∷ 1 ∷ 2 ∷ 3 ∷ 4 ∷ 5 ∷ 6 ∷ 99 ∷ 0
    ∷ 2 ∷ 0 ∷ 0 ∷ 0 ∷ 0 ∷ 0 ∷ 0 ∷ 0 ∷ 0 ∷ 0 ∷ 4 ∷ 14 ∷ 27 ∷ 0 ∷ 1 ∷ 0 ∷ 0 ∷ 0 ∷ 0 ∷ 0 ∷ 0 ∷ 0 ∷ 0
    ∷ 0 ∷ 7 ∷ []

-- An offset of -12 is refused by no check: it replaces the tag's own number by 99.
abbrev behind : Override
behind = record one_byte { offsets = negsuc 11 ∷ [] }

negative_offset_runs :
    (iter_nvm_tags image ≡ ok tags)
    × (apply_xml_overrides image (behind ∷ []) ≡ ok ((renumbered, 17 ∷ [])))
    × (iter_nvm_tags renumbered ≢ ok tags)
unfolding apply_xml_overrides iter_nvm_tags walk override_all override change write_offsets find_tag
negative_offset_runs = (refl, refl, λ e. cc)

abbrev bdaddr : List ℕ
bdaddr = 2 ∷ 17 ∷ 34 ∷ 51 ∷ 68 ∷ 85 ∷ []

abbrev patched_image : List ℕ
patched_image =
    2 ∷ 45 ∷ 0 ∷ 0 ∷ 2 ∷ 0 ∷ 6 ∷ 0 ∷ 0 ∷ 0 ∷ 0 ∷ 0 ∷ 0 ∷ 0 ∷ 0 ∷ 0 ∷ 85 ∷ 68 ∷ 51 ∷ 34 ∷ 17 ∷ 2 ∷ 17
    ∷ 0 ∷ 2 ∷ 0 ∷ 0 ∷ 0 ∷ 0 ∷ 0 ∷ 0 ∷ 0 ∷ 0 ∷ 0 ∷ 132 ∷ 17 ∷ 27 ∷ 0 ∷ 1 ∷ 0 ∷ 0 ∷ 0 ∷ 0 ∷ 0 ∷ 0 ∷ 0
    ∷ 0 ∷ 0 ∷ 7 ∷ []

patch_runs :
    patch_nvm image (some (one_byte ∷ [])) bdaddr 17 true
    ≡ ok ((patched_image, 17 ∷ 2 ∷ 17 ∷ 27 ∷ []))
unfolding patch_nvm patch_tags patch_address patch_uart patch_sleep apply_xml_overrides
    iter_nvm_tags walk override_all override change write_offsets find_tag
patch_runs = refl

patch_nvm-IsPatched_example :
    (before ids : List ℕ) × (overridden (some (one_byte ∷ [])) image ≡ ok ((before, ids)))
    × IsPatched bdaddr 17 true before patched_image
    × ((17 ∷ 2 ∷ 17 ∷ 27 ∷ []) ≡ ids ++ 2 ∷ 17 ∷ 27 ∷ [])
patch_nvm-IsPatched_example =
    patch_nvm-IsPatched image (some (one_byte ∷ [])) bdaddr 17 true patched_image
      (17 ∷ 2 ∷ 17 ∷ 27 ∷ []) refl patch_runs

-- A stand-in for the digest: 32 bytes, of which the first counts the message.
abbrev digest_of : List ℕ → List ℕ
digest_of m =
    (length m % 256)
    ∷ 42
    ∷ 79
    ∷ 116
    ∷ 153
    ∷ 190
    ∷ 227
    ∷ 8
    ∷ 45
    ∷ 82
    ∷ 119
    ∷ 156
    ∷ 193
    ∷ 230
    ∷ 11
    ∷ 48
    ∷ 85
    ∷ 122
    ∷ 159
    ∷ 196
    ∷ 233
    ∷ 14
    ∷ 51
    ∷ 88
    ∷ 125
    ∷ 162
    ∷ 199
    ∷ 236
    ∷ 17
    ∷ 54
    ∷ 91
    ∷ 128
    ∷ []

digest_of-bytes : (m : List ℕ) → (length (digest_of m) ≡ 32) × AreBytes (digest_of m)
digest_of-bytes m = omega arith

persistent_address_stable_example :
    (persistent_address digest_of (persistent_address digest_of none (1 ∷ 2 ∷ [])).1 (3 ∷ [])
      ≡ persistent_address digest_of none (1 ∷ 2 ∷ []))
    × ((persistent_address digest_of none (1 ∷ 2 ∷ [])).0
        ≡ some (new_address digest_of (1 ∷ 2 ∷ [])))
    × (length (new_address digest_of (1 ∷ 2 ∷ [])) ≡ 6)
    × (byte (new_address digest_of (1 ∷ 2 ∷ [])) 0 % 4 ≡ 2)
persistent_address_stable_example =
    persistent_address_stable digest_of digest_of-bytes (1 ∷ 2 ∷ []) (3 ∷ [])

-- Two wake indications and a stray byte before an event.
read_event_framed_example :
    read_event false
      (record { incoming = 253 ∷ 7 ∷ 253 ∷ 4 ∷ 14 ∷ 2 ∷ 5 ∷ 6 ∷ 99 ∷ []; writes = [] })
    ≡ ok (
        (
          4 ∷ 14 ∷ 2 ∷ 5 ∷ 6 ∷ [],
          record { incoming = 99 ∷ []; writes = (252 ∷ []) ∷ (252 ∷ []) ∷ [] },
        ))
read_event_framed_example =
    read_event_framed false (253 ∷ 7 ∷ 253 ∷ []) (5 ∷ 6 ∷ []) (99 ∷ []) 14 [] refl

abbrev firmware : List ℕ
firmware =
    1 ∷ 20 ∷ 0 ∷ 0 ∷ 9 ∷ 9 ∷ 9 ∷ 9 ∷ 9 ∷ 9 ∷ 9 ∷ 9 ∷ 9 ∷ 9 ∷ 3 ∷ 8 ∷ 8 ∷ 8 ∷ 8 ∷ 8 ∷ 8 ∷ 8 ∷ 8 ∷ 8
    ∷ []

abbrev segment_done : List ℕ
segment_done = 1 ∷ 0 ∷ 252 ∷ 0 ∷ []

abbrev line : Uart
line = record { incoming = event_of (14, segment_done) ++ 9 ∷ []; writes = [] }

abbrev line_after : Uart
line_after = record { incoming = 9 ∷ []; writes = download_command firmware ∷ [] }

download_tlv_completes_example :
    download_tlv true firmware (record { uart = line; unified = true })
    ≡ ok (record { uart = line_after; unified = true })
download_tlv_completes_example =
    download_tlv_completes true true firmware 3 ((14, segment_done) ∷ []) (9 ∷ []) [] refl refl

download_runs :
    download_tlv true firmware (record { uart = line; unified = true })
    ≡ ok (record { uart = line_after; unified = true })
unfolding download_tlv download_segments download_segment read_from
download_runs = refl

abbrev session_bytes : List ℕ
session_bytes =
    4 ∷ 14 ∷ 18 ∷ 1 ∷ 0 ∷ 252 ∷ 0 ∷ 25 ∷ 0 ∷ 11 ∷ 0 ∷ 0 ∷ 0 ∷ 22 ∷ 0 ∷ 33 ∷ 0 ∷ 44 ∷ 0 ∷ 0 ∷ 0 ∷ 252
    ∷ 4 ∷ 14 ∷ 4 ∷ 1 ∷ 0 ∷ 252 ∷ 0 ∷ 4 ∷ 14 ∷ 8 ∷ 1 ∷ 0 ∷ 252 ∷ 0 ∷ 35 ∷ 2 ∷ 1 ∷ 24 ∷ 4 ∷ 14 ∷ 4 ∷ 1
    ∷ 0 ∷ 252 ∷ 0 ∷ 4 ∷ 14 ∷ 4 ∷ 1 ∷ 3 ∷ 12 ∷ 0 ∷ []

abbrev session_after : Controller
session_after = record {
  uart = record {
    incoming = [];
    writes =
        (1 ∷ 0 ∷ 252 ∷ 1 ∷ 25 ∷ [])
        ∷ (1 ∷ 72 ∷ 252 ∷ 1 ∷ 17 ∷ [])
        ∷ download_command firmware
        ∷ (1 ∷ 0 ∷ 252 ∷ 1 ∷ 35 ∷ [])
        ∷ download_command patched_image
        ∷ (1 ∷ 3 ∷ 12 ∷ 0 ∷ [])
        ∷ [];
  };
  unified = true;
}

-- The directory holds the image of board 0118 only.
abbrev directory : Option ℕ → Option (List ℕ)
directory none = none
directory (some board) = if board == 280 then some image else none

bring_up_runs :
    bring_up firmware none directory
      (some (one_byte ∷ []))
      bdaddr
      true
      (record { incoming = session_bytes; writes = [] })
    ≡ ok ((patched_image, session_after))
unfolding bring_up query_version set_high_speed query_board_id reset download_tlv download_segments
    download_segment read_from patch_nvm patch_tags patch_address patch_uart patch_sleep
    apply_xml_overrides iter_nvm_tags walk override_all override change write_offsets find_tag
bring_up_runs = refl

bring_up_loads_example :
    IsLoaded firmware none directory
      (some (one_byte ∷ []))
      bdaddr
      true
      (record { incoming = session_bytes; writes = [] })
      patched_image
      session_after
bring_up_loads_example =
    bring_up_loads firmware none directory (some (one_byte ∷ [])) bdaddr true
      (record { incoming = session_bytes; writes = [] }) patched_image session_after bring_up_runs
