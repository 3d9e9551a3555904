-- ===== src/Errors/Examples.antt =====
-- The theorem on error codes at the name of one code.
use mtxclient.Shared.{◌≡◌, ◌≢◌, ◌↔◌, refl}
use mtxclient.Errors.{from_string, to_string, m_forbidden, m_unrecognized}
use mtxclient.Errors.Names.{from_string_iff}

recognized : m_forbidden ≢ m_unrecognized
recognized e = cc

from_string_iff_example :
    (from_string "M_FORBIDDEN" ≡ m_forbidden) ↔ ("M_FORBIDDEN" ≡ to_string m_forbidden)
from_string_iff_example = from_string_iff "M_FORBIDDEN" m_forbidden recognized

unknown : from_string "M_TEAPOT" ≡ m_unrecognized
unfolding from_string
unknown = refl
