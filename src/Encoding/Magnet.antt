-- ===== src/Encoding/Magnet.antt =====
-- `formatMagnetUri` of src/utils/StringUtils.cpp.
use hypertube.Common.{◌++◌, Text, codes, is_empty, if◌then◌else◌}
use hypertube.Encoding.Percent.{url_encode}

unfoldable pub format_magnet_uri : Text → Text → Text
format_magnet_uri info_hash name =
    codes "magnet:?xt=urn:btih:"
    ++ (info_hash
        ++ ((if is_empty name then codes "" else codes "&dn=" ++ url_encode name)
            ++ codes
                "&tr=udp://tracker.openbittorrent.com:80&tr=udp://tracker.opentrackr.org:1337&tr=udp://tracker.coppersurfer.tk:6969"))
