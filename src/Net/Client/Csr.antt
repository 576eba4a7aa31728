-- ===== src/Net/Client/Csr.antt =====
-- `nr__enroll_build_csr` of lib/nirantara-net/src/enroll.c.
use nirantara.Common.{ℕ, not, Option, none, some, if◌then◌else◌}
use nirantara.Common.Options.{◌>>=◌, ◌>>◌, guard}
use nirantara.Common.Text.{Bytes, codes}
use nirantara.Net.Enroll.{err_mem, err_enroll, Outcome, failed}
use nirantara.Net.Client.{OpenSsl, Objects, ClientContext, copied_pem}

module _ {lib : Objects} (o : OpenSsl lib) where
  open o use {new_bio, new_req, add_entry, set_pubkey, sign_req, dup_req, write_req}

  -- The signed request. OpenSSL does not take a null pointer for a key.
  unfoldable pub signed_req : Option lib.Key → Bytes → Option lib.Csr
  signed_req keypair device_id = do
    guard new_req
    guard (add_entry (codes "CN") device_id)
    guard (add_entry (codes "O") (codes "Nirantara"))
    key ← keypair
    guard (set_pubkey key)
    sign_req device_id key

  abbrev pub keep_csr : ℕ → Option lib.Csr → ClientContext lib → Outcome × ClientContext lib
  keep_csr pem_out_len none ctx = (failed err_enroll, ctx)
  keep_csr pem_out_len (some req) ctx = (
    if not new_bio then failed err_mem else copied_pem o err_enroll pem_out_len (write_req req),
    record ctx { csr = dup_req req },
  )

  unfoldable pub enroll_build_csr : ClientContext lib → Bytes → ℕ → Outcome × ClientContext lib
  unfolding signed_req
  enroll_build_csr ctx device_id pem_out_len =
      keep_csr pem_out_len (signed_req ctx.keypair device_id) ctx
