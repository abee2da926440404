-- ===== src/Dra.antt =====
-- internal/dra/deviceclass.go
pub mod Slices
use tenstorrent_dra_framewor.Base.{String, Bool, false, ◌||◌, ◌==◌, string_eq, if◌then◌else◌}

abbrev pub generic_device_class_name : String
generic_device_class_name = "tenstorrent"

abbrev pub wormhole_device_class_name : String
wormhole_device_class_name = "tenstorrent-wormhole"

abbrev pub blackhole_device_class_name : String
blackhole_device_class_name = "tenstorrent-blackhole"

unfoldable pub matches_device_class : String → String → Bool
matches_device_class name chip_series =
    if name == generic_device_class_name
    then chip_series == "wormhole" || chip_series == "blackhole"
    else if name == wormhole_device_class_name
    then chip_series == "wormhole"
    else if name == blackhole_device_class_name
    then chip_series == "blackhole"
    else false

unfoldable pub supported_device_class : String → Bool
supported_device_class name =
    name == generic_device_class_name
    || name == wormhole_device_class_name
    || name == blackhole_device_class_name
