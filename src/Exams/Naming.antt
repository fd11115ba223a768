-- ===== src/Exams/Naming.antt =====
-- `generateExamCode` of src/exams/exams.service.ts.
