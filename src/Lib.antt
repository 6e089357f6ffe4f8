-- ===== src/Lib.antt =====
-- A verification library of Pika-pika, a mains power-quality monitor: the Python services that read
-- what the datalogger stores.
--
-- Parts and files. Paths are from the repository's root; the services are under
-- pika/webapp/app/services/.
--   Prelude       Library names, tests, lists, integers, and `Run`, the result of a loop on fuel.
--   Float         The floating-point interface. Every theorem holds for any operations that meet the
--                 laws it names; most name none. Float/Fixed is one instance, for the examples.
--   Binary        `f.read` and the `struct` codes, over the bytes of a file; Encode writes them.
--   History       history_service.py, the voltage trend.
--     Format      The chunk header, its plausibility test, the two payload layouts.
--     Parse       `_parse_from`, `_scan_and_parse`, `_walk_all`, `_read_tail_intervals`.
--     Seek        `_find_next_valid_chunk`, `_seek_chunk_at_or_before`, `_seek_unaligned_near`.
--     Window      `intervals_between` and `_intervals_in_file`.
--     Display     `_bucket_intervals`, which draws many intervals as few points.
--     Trend       `get_decimated_data`, `peek_decimated_rate` and `_peek_rate_from_file`.
--     Written     The chunks that pika/datalogger/src/writer.c appends, byte by byte.
--     Examples    Runs on the file of Sample and applications of the theorems; further ones are in
--                 Display/, Review/, Scope/, Events/, Observations/,
--                 Settings/Persist/, Settings/Update/, Validator/ and Web/.
--   Review        review_policy.py: which events need a professional's review.
--   Events        event_service.py: the index of sags and swells, with their waveforms.
--     Index       The rows of index.bin that the datalogger appends, byte by byte.
--     Listing     `get_recent_events`; Window: `events_between`; Waveform: `get_event_data`.
--   Text          Texts as code points.
--   Observations  observation_service.py: notes on flicker.
--     Stats       `_bucket_ns`, `_longest_run`, `_median`, `_notch`, `_chart_intervals`.
--     Summary     `build_summary`, sentence by sentence.
--     Correlate   `correlate`, for any services (`Sources`) and for those of the application (Services).
--     Validate    `_validate` on the body of a request.
--     Notes       `create_note`, `get_note`, `list_notes` and the file of notes.
--     Export      The tables and the chart of `export_zip`.
--   Validator     pika/datalogger/validate_data.py: Index is `validate_event_index`, Trend is
--                 `validate_decimated`.
--   Settings      config_service.py and the requests of pika/webapp/app/main.py that change pika.yaml.
--     Pattern     The regular expressions by which a number in the file is found and replaced.
--     Persist     `_persist_nominal_rate_hz`, `_persist_trend_config`, `_persist_anomalies_config`.
--     Config      `load_config`, the defaults and the getters.
--     Update      `update_sample_rate`, `update_trend_config`, `update_anomalies_config`.
--   Web           pika/webapp/app/main.py: Storage is the size and the clearing of the stored files,
--                 Health is `get_health_snapshot` with what it remembers between calls, Restart
--                 the restart of a part of the system and the deletion of the events.
--   Scope         shared_memory.py: the oscilloscope window over the datalogger's ring buffer.
--
-- How the parts interact. The datalogger appends chunks of intervals to decimated.bin and renames it
-- to decimated.bin.old when it grows. The web service opens these files anew for each request. So a
-- file is a value here, the list of the bytes that it held at the request, and `none` when it does
-- not exist. A theorem on `written cs` is about a file that the datalogger wrote whole; the others
-- hold for any bytes, also those that a crash left behind.
--
-- The ring buffer is a snapshot: its header and its samples at the moment of the read. The scale that
-- turns counts into volts comes from the calibration and the configuration and is an argument.
--
-- Loops over a file run on fuel, one more than the file has bytes (the bisection: one more than it
-- has chunks). That is enough, since each round of a loop moves its position forward or halves its
-- interval. Running out would be the value `out_of_fuel`, which is no behaviour of the program.
--
-- `f.read` gives as many bytes as are left. It makes room for all that it is asked for first, which
-- matters only in the validator, where a header that is implausible is still obeyed: there `limit` is the
-- largest size that can be read at once, and above it the result is an exception. The other readers
-- test a header first, and then ask for at most 64 MB.
--
-- Python's integers are ℕ where they cannot be negative (sizes, counts, timestamps read from a file)
-- and ℤ where they can (the bounds of a window, 16-bit samples).
--
-- The note service takes the history, the event index and the configuration as a record of functions,
-- `Sources`, with what it relies on as `AreInWindow`; Correlate/Services fills both. The functions of
-- Python on numbers and texts (`str`, `lower`, `int`, `float`) are parameters of Validate, and the
-- conversion of a time to a date is one of Export.
--
-- A request for new settings takes the state of the server, which is the text of pika.yaml, the loaded
-- configuration and the number of restarts that have been scheduled, and returns the next state with
-- the answer. `yaml.safe_load` and the format `.1f` are parameters. The text is taken to be ASCII where
-- a pattern speaks of digits, blanks and words.
--
-- Not modelled. Calibration, whose values are arguments; the HTTP routes and the processes that main.py
-- starts; the status script and the inspector of trend files, which print;
-- of the services above, printing, the paths of files, locks, the writing of JSON, CSV and archives,
-- the JSON rollup and exceptions of the operating system: a file that can be opened can be read.
pub mod Prelude
pub mod Float
pub mod Binary
pub mod History
pub mod Review
pub mod Scope
pub mod Settings
pub mod Text
pub mod Events
pub mod Observations
pub mod Validator
pub mod Web
