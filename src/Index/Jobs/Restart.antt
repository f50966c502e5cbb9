-- ===== src/Index/Jobs/Restart.antt =====
-- index_jobs.go: what a start writes down, and a start with the files that are published already.
use acemcp_relay.Prelude.{[], text_eq, nat_eq, Text}
use acemcp_relay.Prelude.Int.{int_eq}
use acemcp_relay.Index.Manifest.{IndexManifestFile}

-- A file as a manifest and a snapshot keep it.
abbrev pub file_entry : IndexManifestFile → Text × IndexManifestFile
file_entry f = (f.path, record f { content = [] })
