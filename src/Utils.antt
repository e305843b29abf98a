-- ===== src/Utils.antt =====
-- The size of a buffer as a text, and a free port for a server: src/utils.rs.
mod Laws
mod Tests
use ocdscope.Prelude.{ℕ, ◌/◌, ◌++◌, ltb, if◌then◌else◌}
use ocdscope.Text.{Bytes, codes, format_uint}
use ocdscope.Ttstream.{SysResult, failed, returned}

abbrev pub threshold : ℕ
threshold = 2048

unfoldable pub human_readable_size : ℕ → Bytes
human_readable_size size =
    if ltb size threshold
    then format_uint size ++ codes " B"
    else (if ltb (size / 1024) threshold
        then format_uint (size / 1024) ++ codes " KiB"
        else (if ltb (size / 1024 / 1024) threshold
            then format_uint (size / 1024 / 1024) ++ codes " MiB"
            else format_uint (size / 1024 / 1024 / 1024) ++ codes " GiB"))

-- By what binding a listener to port 0 and asking for its address give; the listener is dropped.
unfoldable pub find_free_tcp_port : SysResult (Unit {0}) → SysResult ℕ → SysResult ℕ
find_free_tcp_port (failed e) local_port = failed e
find_free_tcp_port (returned _) local_port = local_port
