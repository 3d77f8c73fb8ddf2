-- ===== src/Usb/Tests.antt =====
-- The USB input drivers' theorems at concrete inputs.
use l3_dd_trg.Base.{◌-◌, ◌<◌, ◌++◌, take, length, ◌≡◌, refl, true, false, some, [], ◌∷◌}
use l3_dd_trg.Base.Int.{pos, negsuc}
use l3_dd_trg.Usb.{submit_urb, sync, report_key, report_rel}
use l3_dd_trg.Usb.Irq.{MouseCodes, usb_wimouse_irq}
use l3_dd_trg.Usb.Names.{Strings, UsbDevice, name_size, device_name, full_name, device_name_lem}
use l3_dd_trg.Usb.Probe.{held_resource}

abbrev codes : MouseCodes
codes = record {
  btn_left = 272;
  btn_right = 273;
  btn_middle = 274;
  key_up = 103;
  key_down = 108;
  rel_x = 0;
  rel_y = 1;
}

mouse_moves :
    usb_wimouse_irq codes (pos 0) (0 ∷ 3 ∷ 5 ∷ 0xFE ∷ 0 ∷ 0xFF ∷ 0 ∷ 0 ∷ [])
    ≡ submit_urb
      ∷ report_key 272 true
      ∷ report_key 273 true
      ∷ report_key 274 false
      ∷ report_key 103 false
      ∷ report_key 108 true
      ∷ report_rel 0 (pos 5)
      ∷ report_rel 1 (negsuc 1)
      ∷ sync
      ∷ []
unfolding usb_wimouse_irq
mouse_moves = refl

-- The string functions as their documentation has them.
abbrev cutting : Strings
cutting = record {
  strscpy = λ src size. take (size - 1) src;
  strlcat = λ dest src size. take (size - 1) (dest ++ src);
  snprintf = λ text size. take (size - 1) text;
  strscpy_lem = λ src size h. refl;
  strlcat_lem = λ dest src size h. refl;
  snprintf_lem = λ text size h. refl;
}

abbrev presenter : UsbDevice
presenter = record {
  manufacturer = some (b'A' ∷ b'c' ∷ []);
  product = some (b'L' ∷ b'1' ∷ []);
  id_vendor = 0x1915;
  id_product = 0x1029;
}

presenter_name : device_name cutting presenter ≡ b'A' ∷ b'c' ∷ b' ' ∷ b'L' ∷ b'1' ∷ []
unfolding device_name
presenter_name = refl

device_name_lem_example :
    (device_name cutting presenter ≡ take 127 (full_name presenter))
    × (length (device_name cutting presenter) < name_size)
    × (0 < length (device_name cutting presenter))
device_name_lem_example = device_name_lem cutting presenter
