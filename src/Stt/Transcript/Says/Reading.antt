-- ===== src/Stt/Transcript/Says/Reading.antt =====
-- The checks behind the loop of stt_transcript_parse_line, and that it reads what a message says.
