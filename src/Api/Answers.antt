-- ===== src/Api/Answers.antt =====
-- Entries that are made and read through the REST API.
use easy_host_k8s.World.{World}
