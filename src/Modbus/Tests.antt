-- ===== src/Modbus/Tests.antt =====
-- src/connectors/protocols/modbus-tcp/index.ts on concrete addresses.
use opcua_light_server.Prelude.{◌≤◌, ◌≡◌, refl, ◌⊎◌, ◌∷◌, ◌++◌, codes, arith, read_digits, is_space}
use opcua_light_server.Modbus.Address.{
  ParsedAddress, parsed, hr, ir, parse_device_address, is_register,
}
use opcua_light_server.Modbus.Address.Reading.{
  type_name, parse_device_address_valid, parse_device_address-count,
}

abbrev lower_case : ParsedAddress
lower_case = record { type = hr; address = 12; count = 3 }

parse_device_address_valid_example :
    (1 ≤ lower_case.count)
    × ((lower_case.count ≡ 1) ⊎ ((lower_case.type ≡ hr) ⊎ (lower_case.type ≡ ir)))
unfolding parse_device_address is_space
parse_device_address_valid_example = parse_device_address_valid (codes "hr: 12:+3x") lower_case refl

parse_device_address-count_example :
    parse_device_address (type_name hr ++ b':' ∷ (codes "100" ++ b':' ∷ codes "2"))
    ≡ parsed (record { type = hr; address = 100; count = 2 })
unfolding read_digits is_register
parse_device_address-count_example =
    parse_device_address-count hr (codes "100") (codes "2") (refl, refl) (refl, refl) refl
      (omega arith)
