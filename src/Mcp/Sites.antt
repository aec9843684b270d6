-- ===== src/Mcp/Sites.antt =====
-- siteData: which pairs of inputs make a site.
use easy_host_k8s.Prelude.{◌≡◌, ◌↔◌, ◌⊎◌, true, false, Bytes, codes, is_empty, arith}
use easy_host_k8s.Mcp.{McpServer, site, decoded}
use easy_host_k8s.Mcp.Calls.{site_data}

module _ (s : McpServer) where
  -- The inputs html and zip_base64 make a site exactly if one of them is given and the other is not:
  -- either the HTML as it is under the name index.html, or the decoded archive, if it can be decoded,
  -- under the name upload.zip.
  pub site_data_iff :
      (html zip_base64 bytes name : Bytes)
      → (site_data s html zip_base64 ≡ site bytes name) ↔ (
          ((is_empty html ≡ false)
            × (is_empty zip_base64 ≡ true)
            × (bytes ≡ html)
            × (name ≡ codes "index.html"))
          ⊎ ((is_empty html ≡ true)
              × (is_empty zip_base64 ≡ false)
              × (s.decode_base64 zip_base64 ≡ decoded bytes)
              × (name ≡ codes "upload.zip")))
  unfolding site_data
  site_data_iff html zip_base64 bytes name = ground arith
