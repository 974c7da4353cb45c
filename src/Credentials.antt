-- ===== src/Credentials.antt =====
-- Passwords and stored provider keys, scripts/chatui_crypto.py: `Operations` has its functions and
-- the four modes of `main`. The other children prove.
--
-- PBKDF2, AES-GCM and base64 are the libraries that the script calls: a record of functions, of
-- which the theorems take what their documentation promises.
pub mod Operations
pub mod RoundTrip
mod Examples
