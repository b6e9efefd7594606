-- ===== src/Records/Adapter.antt =====
-- corev1.Record and RecordAdapter.GetRecordData (server/types/adapters/record.go).
use agntcy_dir.Base.{Option, none, some}
use agntcy_dir.Records.View.{RecordData}
use agntcy_dir.Records.V1
use agntcy_dir.Records.V2
use agntcy_dir.Records.V3

-- The data of a record: one of three versions, or none.
pub data Record : Type 0 where
  v1 : Option V1.Agent → Record
  v2 : Option V2.AgentRecord → Record
  v3 : Option V3.Record → Record
  no_data : Record

unfoldable pub get_record_data : Record → Option RecordData
get_record_data (v1 agent) = some (V1.adapt_data agent)
get_record_data (v2 agent_record) = some (V2.adapt_data agent_record)
get_record_data (v3 object) = some (V3.adapt_data object)
get_record_data no_data = none
